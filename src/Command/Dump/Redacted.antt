-- ===== src/Command/Dump/Redacted.antt =====
-- command_builder.py: what the recipe dump does not depend on.
use delonghi_coffeelink.Prelude.{
  ℕ, ◌-◌, Bool-cases, inl, inr, ◌≡◌, refl, ap, sym, ◌∙◌, subst, true, false, Option, none, some,
  List, [], ◌∷◌, length, slice, take, drop, length-drop,
}
use delonghi_coffeelink.Prelude.Text.{Text, text_eq, text_eq_sound}
use delonghi_coffeelink.Const.{is_text_family}
use delonghi_coffeelink.Catalog.{
  Value, Prop, Props, value_of, get_prop, sorted_names, insert_sorted,
}
use delonghi_coffeelink.Command.Dump.{
  dumpable_blob, render_blob, is_named, dump_line, line_of, with_line, dump_lines,
  recipe_dump_lines,
}

-- What someone who may not read the names, the PIN and the serial number sees of two values of a
-- property: they are the same, or two blobs of names that agree in header and length, or two
-- values that are no recipe blobs, under a name that does not tell of recipes.
pub data Alike (name : Text) (v w : Value) : Type 0 where
  same : v ≡ w → Alike name v w
  blobs_of_names :
      (r s : List ℕ)
      → dumpable_blob v ≡ some r
      → dumpable_blob w ≡ some s
      → is_text_family (slice 2 4 r) ≡ true
      → take 6 r ≡ take 6 s
      → length r ≡ length s
      → Alike name v w
  hidden : dumpable_blob v ≡ none → dumpable_blob w ≡ none → is_named name ≡ false → Alike name v w

-- Two readings of the same properties.
pub data AreAlike : Props → Props → Type 0 where
  no_more : AreAlike [] []
  add :
      (name : Text) (p q : Prop) {props props' : Props}
      → Alike name (value_of (some p)) (value_of (some q))
      → AreAlike props props'
      → AreAlike ((name, p) ∷ props) ((name, q) ∷ props')

slice-take : (r : List ℕ) → slice 2 4 (take 6 r) ≡ slice 2 4 r
slice-take [] = refl
slice-take (a ∷ []) = refl
slice-take (a ∷ b ∷ []) = refl
slice-take (a ∷ b ∷ c ∷ []) = refl
slice-take (a ∷ b ∷ c ∷ d ∷ r) = refl

render_blob-names :
    (name : Text) (r s : List ℕ)
    → is_text_family (slice 2 4 r) ≡ true
    → take 6 r ≡ take 6 s
    → length r ≡ length s
    → render_blob name r ≡ render_blob name s
unfolding render_blob
render_blob-names name r s names head long =
    let family : slice 2 4 r ≡ slice 2 4 s =
      sym (slice-take r) ∙ ap (λ (h : List ℕ). slice 2 4 h) head ∙ slice-take s in
    let rest : length (drop 6 r) ≡ length (drop 6 s) =
      length-drop 6 r ∙ ap (λ (n : ℕ). n - 6) long ∙ sym (length-drop 6 s) in
    rw (names, sym family, names, head, rest) refl

dump_line-Alike :
    (repr_of : Text → Text) (name : Text) (v w : Value)
    → Alike name v w
    → dump_line repr_of name v ≡ dump_line repr_of name w
unfolding line_of dump_line
dump_line-Alike repr_of name v w (same h) = ap (dump_line repr_of name) h
dump_line-Alike repr_of name v w (blobs_of_names r s hr hs family head long) =
    ap (line_of repr_of name v) hr
    ∙ ap some (render_blob-names name r s family head long)
    ∙ sym (ap (line_of repr_of name w) hs)
dump_line-Alike repr_of name v w (hidden hv hw unnamed) =
    ap (line_of repr_of name v) hv ∙ rw unnamed refl ∙ sym (ap (line_of repr_of name w) hw)

get_prop-AreAlike :
    (props props' : Props)
    → AreAlike props props'
    → (name : Text) → Alike name (value_of (get_prop name props)) (value_of (get_prop name props'))
unfolding get_prop
get_prop-AreAlike [] [] no_more name = same refl
get_prop-AreAlike [] (_ ∷ qs) alike name = elim alike [ ]
get_prop-AreAlike ((_, _) ∷ ps) [] alike name = elim alike [ ]
get_prop-AreAlike ((_, _) ∷ ps) ((_, _) ∷ qs) (add m p q alike rest) name =
    elim (Bool-cases (text_eq name m)) [
      | inl eq ↦ rw eq (
          subst (λ (n : Text). Alike n (value_of (some p)) (value_of (some q)))
            (sym (text_eq_sound name m eq)) alike)
      | inr eq ↦ rw eq (get_prop-AreAlike ps qs rest name)
    ]

sorted_names-AreAlike :
    (props props' : Props) → AreAlike props props' → sorted_names props ≡ sorted_names props'
unfolding sorted_names
sorted_names-AreAlike [] [] no_more = refl
sorted_names-AreAlike [] (_ ∷ qs) alike = elim alike [ ]
sorted_names-AreAlike ((_, _) ∷ ps) [] alike = elim alike [ ]
sorted_names-AreAlike ((_, _) ∷ ps) ((_, _) ∷ qs) (add m p q alike rest) =
    ap (insert_sorted m) (sorted_names-AreAlike ps qs rest)

module _ (repr_of : Text → Text) where
  dump_lines-AreAlike :
      (props props' : Props)
      → AreAlike props props'
      → (names : List Text) → dump_lines repr_of props names ≡ dump_lines repr_of props' names
  unfolding dump_lines
  dump_lines-AreAlike props props' alike [] = refl
  dump_lines-AreAlike props props' alike (name ∷ names) =
      let line : dump_line repr_of name (value_of (get_prop name props))
          ≡ dump_line repr_of name (value_of (get_prop name props')) =
        dump_line-Alike repr_of name (value_of (get_prop name props))
          (value_of (get_prop name props')) (get_prop-AreAlike props props' alike name) in
      ap (λ (o : Option Text). with_line o (dump_lines repr_of props names)) line
      ∙ ap (with_line (dump_line repr_of name (value_of (get_prop name props'))))
          (dump_lines-AreAlike props props' alike names)

-- Two readings of the same properties give the same dump where they differ only in the text of name
-- blobs, header and length kept, and in values that are no recipe blobs and stand under other names.
pub recipe_dump_lines-AreAlike :
    (repr_of : Text → Text) (props props' : Props)
    → AreAlike props props'
    → recipe_dump_lines repr_of props ≡ recipe_dump_lines repr_of props'
unfolding recipe_dump_lines
recipe_dump_lines-AreAlike repr_of props props' alike =
    dump_lines-AreAlike repr_of props props' alike (sorted_names props)
    ∙ ap (dump_lines repr_of props') (sorted_names-AreAlike props props' alike)
