-- ===== src/Poll/Cache.antt =====
-- coordinator.py: the cache of the catalogue.
use delonghi_coffeelink.Prelude.{
  ◌≡◌, ◌⊎◌, refl, ap, sym, ◌∙◌, inl, inr, true, false, not, ◌&&◌, ◌||◌, none, some, List, [], ◌∷◌,
  Bool-cases, if-both,
}
use delonghi_coffeelink.Prelude.Text.{Text, text_eq_refl}
use delonghi_coffeelink.Prelude.Result.{Result, ok, err}
use delonghi_coffeelink.Catalog.{Props, catalog_fingerprint}
use delonghi_coffeelink.Catalog.Build.{Catalog, build_catalog}
use delonghi_coffeelink.Poll.Fetch.{
  Cache, same_entries, same_fingerprint, has_catalog, is_empty_catalog, keep_catalog,
  update_catalog,
}

same_entries_refl : (es : List (Text × Text)) → same_entries es es ≡ true
same_entries_refl [] = refl
same_entries_refl ((n, v) ∷ es) = rw (text_eq_refl n, text_eq_refl v, same_entries_refl es) refl

-- What a cache holds was built from the properties of one poll, of which its key is the fingerprint,
-- and is no empty catalogue; or nothing has been built yet.
abbrev pub IsFaithful : Cache → Type 0
IsFaithful s =
    ((s.catalog ≡ none) × (s.fingerprint ≡ none))
    ⊎ ((props : Props) × (c : Catalog) × (build_catalog props ≡ ok c)
        × (is_empty_catalog c ≡ false)
        × (s.catalog ≡ some c)
        × (s.fingerprint ≡ some (catalog_fingerprint props)))

keep_catalog-IsFaithful :
    (props : Props) (r : Result Catalog) (s : Cache)
    → build_catalog props ≡ r
    → IsFaithful s
    → IsFaithful (keep_catalog (catalog_fingerprint props) r s)
keep_catalog-IsFaithful props (err e) s built h = h
keep_catalog-IsFaithful props (ok c) s built h = elim (Bool-cases (is_empty_catalog c)) [
  | inl empty ↦ rw empty h
  | inr some_beverage ↦ rw some_beverage (inr (props, c, built, some_beverage, refl, refl))
]

pub update_catalog-IsFaithful :
    (props : Props) (s : Cache) → IsFaithful s → IsFaithful (update_catalog props s)
unfolding update_catalog
update_catalog-IsFaithful props s h =
    let key = catalog_fingerprint props in
    if-both IsFaithful (same_fingerprint key s.fingerprint && has_catalog s.catalog) s
      (keep_catalog key (build_catalog props) s) h
      (keep_catalog-IsFaithful props (build_catalog props) s refl h)

keep_catalog-has_catalog :
    (key : List (Text × Text)) (r : Result Catalog) (s : Cache)
    → has_catalog s.catalog ≡ true
    → has_catalog (keep_catalog key r s).catalog ≡ true
keep_catalog-has_catalog key (err e) s h = h
keep_catalog-has_catalog key (ok c) s h = elim (Bool-cases (is_empty_catalog c)) [
  | inl empty ↦ rw empty h
  | inr some_beverage ↦ rw some_beverage refl
]

pub update_catalog-has_catalog :
    (props : Props) (s : Cache)
    → has_catalog s.catalog ≡ true
    → has_catalog (update_catalog props s).catalog ≡ true
unfolding update_catalog
update_catalog-has_catalog props s h =
    let key = catalog_fingerprint props in
    if-both (λ (t : Cache). has_catalog t.catalog ≡ true)
      (same_fingerprint key s.fingerprint && has_catalog s.catalog) s
      (keep_catalog key (build_catalog props) s) h
      (keep_catalog-has_catalog key (build_catalog props) s h)

-- The catalogue after polls, one after the other.
abbrev pub update_all : List Props → Cache → Cache
update_all [] s = s
update_all (props ∷ polls) s = update_all polls (update_catalog props s)

update_all-has_catalog :
    (polls : List Props) (s : Cache)
    → has_catalog s.catalog ≡ true
    → has_catalog (update_all polls s).catalog ≡ true
update_all-has_catalog [] s h = h
update_all-has_catalog (props ∷ polls) s h =
    update_all-has_catalog polls (update_catalog props s) (update_catalog-has_catalog props s h)

update_all_keeps : (polls : List Props) (s : Cache) → IsFaithful s → IsFaithful (update_all polls s)
update_all_keeps [] s h = h
update_all_keeps (props ∷ polls) s h =
    update_all_keeps polls (update_catalog props s) (update_catalog-IsFaithful props s h)

-- Over any polls the cache of the catalogue stays faithful: it holds what was built of one poll,
-- under the fingerprint of that poll, and never an empty catalogue. A machine that has a catalogue
-- never loses it.
update_all-IsFaithful :
    (polls : List Props) (s : Cache)
    → IsFaithful s
    → IsFaithful (update_all polls s)
      × ((not (has_catalog s.catalog) || has_catalog (update_all polls s).catalog) ≡ true)
update_all-IsFaithful polls s h = (
  update_all_keeps polls s h,
  elim (Bool-cases (has_catalog s.catalog)) [
    | inl held ↦ rw (held, update_all-has_catalog polls s held) refl
    | inr none_yet ↦ rw none_yet refl
  ],
)

keep_catalog-cases :
    (key : List (Text × Text)) (r : Result Catalog) (s : Cache)
    → (keep_catalog key r s ≡ s)
      ⊎ ((c : Catalog) × (keep_catalog key r s
            ≡ record { catalog = some c; fingerprint = some key }))
keep_catalog-cases key (err e) s = inl refl
keep_catalog-cases key (ok c) s = elim (Bool-cases (is_empty_catalog c)) [
  | inl empty ↦ inl (rw empty refl)
  | inr some_beverage ↦ inr (c, rw some_beverage refl)
]

update_catalog-cases :
    (props : Props) (s : Cache)
    → (update_catalog props s ≡ s)
      ⊎ ((c : Catalog) × (update_catalog props s
            ≡ record { catalog = some c; fingerprint = some (catalog_fingerprint props) }))
unfolding update_catalog
update_catalog-cases props s =
    let key = catalog_fingerprint props in
    if-both
      (λ (t : Cache).
        (t ≡ s) ⊎ ((c : Catalog) × (t ≡ record { catalog = some c; fingerprint = some key })))
      (same_fingerprint key s.fingerprint && has_catalog s.catalog) s
      (keep_catalog key (build_catalog props) s) (inl refl)
      (keep_catalog-cases key (build_catalog props) s)

update_catalog-hit :
    (props : Props) (c : Catalog)
    → update_catalog props
        (record { catalog = some c; fingerprint = some (catalog_fingerprint props) })
      ≡ record { catalog = some c; fingerprint = some (catalog_fingerprint props) }
unfolding update_catalog
update_catalog-hit props c = rw (same_entries_refl (catalog_fingerprint props)) refl

-- A second poll with the same properties changes nothing.
update_catalog-again :
    (props : Props) (s : Cache)
    → update_catalog props (update_catalog props s) ≡ update_catalog props s
update_catalog-again props s = elim (update_catalog-cases props s) [
  | inl same ↦ ap (update_catalog props) same
  | inr (c, new) ↦ ap (update_catalog props) new ∙ update_catalog-hit props c ∙ sym new
]
