-- ===== src/Catalog/Blobs.antt =====
-- catalog.py: folding the blobs raises nothing, and takes no beverage away.
use delonghi_coffeelink.Prelude.{
  ℕ, ◌≤◌, ◌≡◌, refl, ap, ◌∙◌, subst, arith, Bool, true, false, ◌&&◌, Option, none, some, List, [],
  ◌∷◌, length, ltb, leb, ◌==◌, Bool-cases, Option-cases, inl, inr, drop, ltb_false→le, ==_iff,
}
use delonghi_coffeelink.Prelude.Result.{
  Returns, IsSafe, ok-IsSafe, Result-cases, Passes, Passes-bind, Passes-Returns,
}
use delonghi_coffeelink.Prelude.Text.{Text, text_eq}
use delonghi_coffeelink.Prelude.Dict.{Dict, lookup, insert, lookup-insert}
use delonghi_coffeelink.Command.Inspect.{index}
use delonghi_coffeelink.Command.Total.{index-eq-ok}
use delonghi_coffeelink.Const.{
  blob_family_descriptor, blob_family_profile_recipe, blob_family_priority,
  blob_family_profile_names, blob_family_custom_names, blob_family_bean_names,
}
use delonghi_coffeelink.Catalog.{
  Props, Blob, min_payload, decode_text, parse_tlv, parse_triples, iter_blobs,
}
use delonghi_coffeelink.Catalog.Build.{
  Entry, new_entry, Catalog, empty_catalog, update_entry, fold_descriptor, fold_profile_recipe,
  fold_priority, fold_bean_name, fold_family, fold_truncated, fold_blob, fold_blobs, build_catalog,
}

module _ (name : Text) (payload : List ℕ) (c : Catalog) where
  fold_descriptor-IsSafe : 1 ≤ length payload → IsSafe (fold_descriptor name payload c)
  unfolding fold_descriptor
  fold_descriptor-IsSafe long e = ground (arith, index-eq-ok payload 0)

  fold_profile_recipe-IsSafe : 2 ≤ length payload → IsSafe (fold_profile_recipe name payload c)
  unfolding fold_profile_recipe
  fold_profile_recipe-IsSafe long e = ground (arith, index-eq-ok payload 0, index-eq-ok payload 1)

  fold_priority-IsSafe : 1 ≤ length payload → IsSafe (fold_priority payload c)
  unfolding fold_priority
  fold_priority-IsSafe long e = ground (arith, index-eq-ok payload 0)

  fold_bean_name-IsSafe : 2 ≤ length payload → IsSafe (fold_bean_name payload c)
  unfolding fold_bean_name
  fold_bean_name-IsSafe long e = ground (arith, index-eq-ok payload 0)

  fold_family-IsSafe :
      (family : List ℕ)
      → min_payload family ≤ length payload
      → IsSafe (fold_family name family payload c)
  unfolding fold_family min_payload
  fold_family-IsSafe family long e = ground (
    arith,
    λ (h : 1 ≤ length payload). fold_descriptor-IsSafe h e,
    λ (h : 2 ≤ length payload). fold_profile_recipe-IsSafe h e,
    λ (h : 1 ≤ length payload). fold_priority-IsSafe h e,
    λ (h : 2 ≤ length payload). fold_bean_name-IsSafe h e,
  )

fold_truncated-IsSafe :
    (name : Text) (blob : Blob) (c : Catalog) → IsSafe (fold_truncated name blob c)
unfolding fold_truncated
fold_truncated-IsSafe name blob c e = ground (arith, index-eq-ok blob.raw 4)

fold_blob-IsSafe : (name : Text) (blob : Blob) (c : Catalog) → IsSafe (fold_blob name blob c)
unfolding fold_blob
fold_blob-IsSafe name blob c e = elim (Bool-cases blob.truncated) [
  | inl cut ↦ rw cut (fold_truncated-IsSafe name _ _ e)
  | inr whole ↦ elim (Bool-cases blob.crc_valid) [
    | inl valid ↦ elim (Bool-cases (ltb (length blob.payload) (min_payload blob.family))) [
      | inl short ↦ rw (whole, valid, short) (ok-IsSafe _ e)
      | inr long ↦
          rw (whole, valid, long)
            (fold_family-IsSafe name blob.payload _ blob.family (ltb_false→le _ _ long) e)
    ]
    | inr damaged ↦ rw (whole, damaged) (ok-IsSafe _ e)
  ]
]

fold_blobs-IsSafe : (blobs : List (Text × Blob)) (c : Catalog) → IsSafe (fold_blobs blobs c)
unfolding fold_blobs
fold_blobs-IsSafe [] c e = ok-IsSafe c e
fold_blobs-IsSafe ((name, blob) ∷ blobs) c e = elim (Result-cases (fold_blob name blob c)) [
  | inl (c', eq) ↦ rw eq (fold_blobs-IsSafe blobs c' e)
  | inr (e', eq) ↦ absurd (fold_blob-IsSafe name blob c e' eq)
]

-- `build_catalog` raises nothing, whatever the properties: the least payload of its family is
-- tested before any byte of a payload is read.
pub build_catalog-IsSafe : (props : Props) → IsSafe (build_catalog props)
unfolding build_catalog
build_catalog-IsSafe props e = elim (Result-cases (fold_blobs (iter_blobs props) empty_catalog)) [
  | inl (c, eq) ↦ rw eq (ok-IsSafe _ e)
  | inr (e', eq) ↦ absurd (fold_blobs-IsSafe (iter_blobs props) empty_catalog e' eq)
]

abbrev entry_declared : Option Entry → Bool
entry_declared none = false
entry_declared (some item) = item.declared

-- The beverage is in the catalogue as one that the machine declares.
abbrev pub is_declared : ℕ → Dict Entry → Bool
is_declared b beverages = entry_declared (lookup b beverages)

-- A change of an entry that leaves it declared where it was.
Keeps : (Entry → Entry) → Type 0
Keeps f = (item : Entry) → item.declared ≡ true → (f item).declared ≡ true

abbrev entry_or_new : ℕ → Option Entry → Entry
entry_or_new b none = new_entry b
entry_or_new b (some item) = item

found_declared :
    (b : ℕ) (o : Option Entry) → entry_declared o ≡ true → (entry_or_new b o).declared ≡ true
found_declared b none h = ground (arith, h)
found_declared b (some item) h = h

update_entry-declared :
    (b k : ℕ) (f : Entry → Entry) (beverages : Dict Entry)
    → Keeps f
    → is_declared b beverages ≡ true
    → is_declared b (update_entry k f beverages) ≡ true
unfolding update_entry Keeps
update_entry-declared b k f beverages keeps h =
    let v : Entry = f (elim (lookup k beverages) [ none ↦ new_entry k | some item ↦ item ]) in
    let at_k : (b == k) ≡ true → is_declared b (insert k v beverages) ≡ v.declared =
      λ same. ap entry_declared (lookup-insert b k v beverages) ∙ rw same refl in
    let elsewhere : (b == k) ≡ false
        → is_declared b (insert k v beverages) ≡ is_declared b beverages =
      λ other. ap entry_declared (lookup-insert b k v beverages) ∙ rw other refl in
    elim (Bool-cases (b == k)) [
      | inl same ↦
          let eq : b ≡ k = (==_iff b k).0 same in
          let old : is_declared k beverages ≡ true =
            subst (λ j. is_declared j beverages ≡ true) eq h in
          at_k same ∙ keeps _ (found_declared k (lookup k beverages) old)
      | inr other ↦ elsewhere other ∙ h
    ]

module _ (b : ℕ) where
  abbrev pub HasDeclared : Catalog → Type 0
  HasDeclared c = is_declared b c.beverages ≡ true

  module _ (name : Text) (payload : List ℕ) (c : Catalog)
      (h : is_declared b c.beverages ≡ true) where
    fold_descriptor-declared : Passes HasDeclared (fold_descriptor name payload c)
    unfolding fold_descriptor Keeps
    fold_descriptor-declared = Passes-bind HasDeclared (index payload 0) _ λ bev.
        elim (Option-cases (parse_triples (drop 1 payload))) [
          | inl eq ↦ rw eq (update_entry-declared b bev _ c.beverages (λ item d. refl) h)
          | inr (triples, eq) ↦ rw eq (update_entry-declared b bev _ c.beverages (λ item d. refl) h)
        ]

    fold_profile_recipe-declared : Passes HasDeclared (fold_profile_recipe name payload c)
    unfolding fold_profile_recipe Keeps
    fold_profile_recipe-declared = Passes-bind HasDeclared (index payload 0) _ λ slot.
        Passes-bind HasDeclared (index payload 1) _ λ bev.
          elim (Option-cases (parse_tlv (drop 2 payload))) [
            | inl eq ↦ rw eq (update_entry-declared b bev _ c.beverages (λ item d. d) h)
            | inr (params, eq) ↦ rw eq (update_entry-declared b bev _ c.beverages (λ item d. d) h)
          ]

    fold_priority-declared : Passes HasDeclared (fold_priority payload c)
    unfolding fold_priority
    fold_priority-declared = Passes-bind HasDeclared (index payload 0) _ λ slot. h

    fold_bean_name-declared : Passes HasDeclared (fold_bean_name payload c)
    unfolding fold_bean_name
    fold_bean_name-declared = elim (Option-cases (decode_text (drop 2 payload))) [
      | inl eq ↦ rw eq h
      | inr (t, eq) ↦ rw eq (Passes-bind HasDeclared (index payload 0) _ λ slot. h)
    ]

    fold_family-declared :
        (family : List ℕ) → Passes HasDeclared (fold_family name family payload c)
    unfolding fold_family
    fold_family-declared family = elim (Bool-cases (text_eq family blob_family_descriptor)) [
      | inl is0 ↦ rw (is0) fold_descriptor-declared
      | inr no0 ↦ elim (Bool-cases (text_eq family blob_family_profile_recipe)) [
        | inl is1 ↦ rw (no0, is1) fold_profile_recipe-declared
        | inr no1 ↦ elim (Bool-cases (text_eq family blob_family_priority)) [
          | inl is2 ↦ rw (no0, no1, is2) fold_priority-declared
          | inr no2 ↦ elim (Bool-cases (text_eq family blob_family_bean_names)) [
            | inl is3 ↦ rw (no0, no1, no2, is3) fold_bean_name-declared
            | inr no3 ↦ elim (Bool-cases (text_eq family blob_family_profile_names)) [
              | inl is4 ↦ rw (no0, no1, no2, no3, is4) h
              | inr no4 ↦ elim (Bool-cases (text_eq family blob_family_custom_names)) [
                | inl is5 ↦ rw (no0, no1, no2, no3, no4, is5) h
                | inr no5 ↦ rw (no0, no1, no2, no3, no4, no5) h
              ]
            ]
          ]
        ]
      ]
    ]

  fold_truncated-declared :
      (name : Text) (blob : Blob) (c : Catalog)
      → HasDeclared c
      → Passes HasDeclared (fold_truncated name blob c)
  unfolding fold_truncated Keeps
  fold_truncated-declared name blob c h =
      elim (Bool-cases (text_eq blob.family blob_family_descriptor && leb 5 (length blob.raw))) [
        | inl known ↦ rw known (
            Passes-bind HasDeclared (index blob.raw 4) _
              λ bev. update_entry-declared b bev _ c.beverages (λ item d. refl) h)
        | inr unknown ↦ rw unknown h
      ]

  fold_blob-declared :
      (name : Text) (blob : Blob) (c : Catalog)
      → HasDeclared c
      → Passes HasDeclared (fold_blob name blob c)
  unfolding fold_blob
  fold_blob-declared name blob c h = elim (Bool-cases blob.truncated) [
    | inl cut ↦ rw cut (fold_truncated-declared name _ _ h)
    | inr whole ↦ elim (Bool-cases blob.crc_valid) [
      | inl valid ↦ elim (Bool-cases (ltb (length blob.payload) (min_payload blob.family))) [
        | inl short ↦ rw (whole, valid, short) h
        | inr long ↦
            rw (whole, valid, long) (fold_family-declared name blob.payload _ h blob.family)
      ]
      | inr damaged ↦ rw (whole, damaged) h
    ]
  ]

  fold_blobs-declared :
      (blobs : List (Text × Blob)) (c : Catalog)
      → HasDeclared c
      → Passes HasDeclared (fold_blobs blobs c)
  unfolding fold_blobs
  fold_blobs-declared [] c h = h
  fold_blobs-declared ((name, blob) ∷ blobs) c h = elim (Result-cases (fold_blob name blob c)) [
    | inl (c', eq) ↦
        rw eq (fold_blobs-declared blobs c' (rw eq at (fold_blob-declared name blob c h)))
    | inr (e', eq) ↦ rw eq tt
  ]

  -- Reading more blobs raises nothing and takes no beverage away: a beverage that was declared
  -- before stays declared whatever the blobs are, be they damaged, truncated, too short or not
  -- parsed, and in whatever order they come.
  pub fold_blobs-keeps :
      (blobs : List (Text × Blob)) (c : Catalog)
      → HasDeclared c
      → Returns HasDeclared (fold_blobs blobs c)
  fold_blobs-keeps blobs c h =
      Passes-Returns HasDeclared (fold_blobs blobs c) (fold_blobs-IsSafe blobs c)
        (fold_blobs-declared blobs c h)
