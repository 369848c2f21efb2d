-- ===== src/Catalog.antt =====
-- catalog.py: the machine blobs and their grammars. The names of the properties are labels only.
pub mod Build
pub mod Views
pub mod Tlv
pub mod Blobs
use Prim.Native.String.{String}
use delonghi_coffeelink.Prelude.{
  ℕ, zero, suc, ◌+◌, ◌-◌, ◌*◌, ◌/◌, Bool, true, false, not, ◌&&◌, ◌||◌, Option, none, some, List,
  [], ◌∷◌, ◌++◌, length, ltb, leb, ◌==◌, if◌then◌else◌, slice, take, drop, get_elem?,
}
use delonghi_coffeelink.Prelude.Text.{Text, codes, text_eq, text_leb, join_split, strip}
use delonghi_coffeelink.Prelude.Dict.{Dict, insert}
use delonghi_coffeelink.Bytes.{from_bytes}
use delonghi_coffeelink.Crc.{crc16_aug_ccitt}
use delonghi_coffeelink.Base64.{b64decode}
use delonghi_coffeelink.Hex.{hex}
use delonghi_coffeelink.Const.{
  blob_family_descriptor, blob_family_profile_recipe, blob_family_priority,
  blob_family_profile_names, blob_family_custom_names, blob_family_bean_names, cmd_response_prefix,
}

-- A value of a datapoint: a `str`, or anything else. A property is a dictionary with or without a
-- key "value", or the value itself.
pub data Value : Type 0 where
  text : Text → Value
  other : Value

pub data Prop : Type 0 where
  described : Option Value → Prop
  bare : Value → Prop

abbrev pub Props : Type 0
Props = List (Text × Prop)

-- prop.get("value") if isinstance(prop, dict) else prop
abbrev pub value_of : Option Prop → Value
value_of none = other
value_of (some (described none)) = other
value_of (some (described (some v))) = v
value_of (some (bare v)) = v

-- FAMILY_LABELS.get(family)
unfoldable pub family_labels : List ℕ → Option Text
family_labels f =
    if text_eq f blob_family_descriptor
    then some (codes "factory_descriptor")
    else if text_eq f blob_family_profile_recipe
    then some (codes "profile_recipe")
    else if text_eq f blob_family_priority
    then some (codes "priority_list")
    else if text_eq f blob_family_profile_names
    then some (codes "profile_names")
    else if text_eq f blob_family_custom_names
    then some (codes "custom_names")
    else if text_eq f blob_family_bean_names
    then some (codes "bean_names")
    else none

-- tag in WIDE_TAGS
abbrev pub is_wide : ℕ → Bool
is_wide tag = (tag == 0x01) || (tag == 0x09) || (tag == 0x0f)

-- bev_id in CUSTOM_SLOT_IDS, bev_id in BEAN_SYSTEM_IDS
abbrev pub is_custom_slot : ℕ → Bool
is_custom_slot b = leb 0xe6 b && ltb b 0xec

abbrev pub is_bean_system : ℕ → Bool
is_bean_system b = leb 0xc8 b && ltb b 0xce

-- _MIN_PAYLOAD.get(family, 0)
unfoldable pub min_payload : List ℕ → ℕ
min_payload f =
    if text_eq f blob_family_descriptor
    then 1
    else if text_eq f blob_family_profile_recipe
    then 2
    else if text_eq f blob_family_priority
    then 1
    else if text_eq f blob_family_profile_names
    then 2
    else if text_eq f blob_family_custom_names
    then 2
    else if text_eq f blob_family_bean_names
    then 2
    else 0

abbrev clean_bytes : Text → Option (List ℕ)
clean_bytes [] = none
clean_bytes (c ∷ s) = b64decode true (take (length (c ∷ s) / 4 * 4) (c ∷ s))

-- _b64_bytes
unfoldable pub b64_bytes : Value → Option (List ℕ)
b64_bytes other = none
b64_bytes (text s) = clean_bytes (join_split s)

abbrev family_of_head : Option (List ℕ) → Option (List ℕ)
family_of_head none = none
family_of_head (some []) = none
family_of_head (some (b ∷ bs)) =
    if b == cmd_response_prefix then some (slice 2 4 (b ∷ bs)) else none

-- Eight characters decode to at least four bytes, so that `raw[0]` is there.
unfoldable pub blob_family : Value → Option (List ℕ)
blob_family other = none
blob_family (text s) =
    let head = take 8 (join_split s) in
    if ltb (length head) 8 then none else family_of_head (b64decode true head)

-- What `decode_blob` returns; a truncated blob has neither a payload nor a trailer.
pub record Blob : Type 0 where
  pub raw : List ℕ
  pub family : List ℕ
  pub family_label : Text
  pub declared_length : ℕ
  pub truncated : Bool
  pub crc_valid : Bool
  pub payload : List ℕ
  pub trailer : List ℕ

-- FAMILY_LABELS.get(family, family.hex(" "))
abbrev pub family_label_of : List ℕ → Text
family_label_of family = elim (family_labels family) [ none ↦ hex family | some l ↦ l ]

-- The gates of `decode_blob`: frame[:-2] is raw[:declared - 2], and declared is at least 1.
unfoldable pub decode_blob_bytes : List ℕ → Option Blob
decode_blob_bytes (prefix ∷ size ∷ f0 ∷ f1 ∷ b4 ∷ b5 ∷ more) =
    let raw = prefix ∷ size ∷ f0 ∷ f1 ∷ b4 ∷ b5 ∷ more in
    let declared = size + 1 in
    let family = f0 ∷ f1 ∷ [] in
    if not (prefix == cmd_response_prefix)
    then none
    else if ltb (length raw) declared
    then some (record {
      raw = raw;
      family = family;
      family_label = family_label_of family;
      declared_length = declared;
      truncated = true;
      crc_valid = false;
      payload = [];
      trailer = [];
    })
    else some (record {
      raw = raw;
      family = family;
      family_label = family_label_of family;
      declared_length = declared;
      truncated = false;
      crc_valid =
          crc16_aug_ccitt (take (declared - 2) raw)
          == from_bytes (drop (declared - 2) (take declared raw));
      payload = slice 4 (declared - 2) raw;
      trailer = drop declared raw;
    })
decode_blob_bytes _ = none

unfoldable pub decode_blob : Value → Option Blob
decode_blob value = elim (b64_bytes value) [ none ↦ none | some raw ↦ decode_blob_bytes raw ]

-- The loop of `parse_tlv`: `out` is what has been read, the list what stands at `i`.
unfoldable pub parse_tlv_from : Dict ℕ → List ℕ → Option (Dict ℕ)
parse_tlv_from out [] = some out
parse_tlv_from out (tag ∷ []) = none
parse_tlv_from out (tag ∷ a ∷ []) = if is_wide tag then none else some (insert tag a out)
parse_tlv_from out (tag ∷ a ∷ b ∷ rest) = elim (is_wide tag) [
  | true ↦ parse_tlv_from (insert tag (from_bytes (a ∷ b ∷ [])) out) rest
  | false ↦ parse_tlv_from (insert tag a out) (b ∷ rest)
]

unfoldable pub parse_tlv : List ℕ → Option (Dict ℕ)
parse_tlv payload = parse_tlv_from [] payload

pub record Triple : Type 0 where
  pub low : ℕ
  pub default : ℕ
  pub high : ℕ

unfoldable pub parse_triples_from : Dict Triple → List ℕ → Option (Dict Triple)
parse_triples_from out [] = some out
parse_triples_from out (tag ∷ a ∷ b ∷ c ∷ []) =
    if is_wide tag then none else some (insert tag (record { low = a; default = b; high = c }) out)
parse_triples_from out (tag ∷ a ∷ b ∷ c ∷ d ∷ []) = none
parse_triples_from out (tag ∷ a ∷ b ∷ c ∷ d ∷ e ∷ []) = elim (is_wide tag) [
  | true ↦ none
  | false ↦
      parse_triples_from (insert tag (record { low = a; default = b; high = c }) out) (d ∷ e ∷ [])
]
parse_triples_from out (tag ∷ a ∷ b ∷ c ∷ d ∷ e ∷ f ∷ rest) = elim (is_wide tag) [
  | true ↦
      parse_triples_from
        (insert tag
          (record {
            low = from_bytes (a ∷ b ∷ []);
            default = from_bytes (c ∷ d ∷ []);
            high = from_bytes (e ∷ f ∷ []);
          })
          out)
        rest
  | false ↦
      parse_triples_from (insert tag (record { low = a; default = b; high = c }) out)
        (d ∷ e ∷ f ∷ rest)
]
parse_triples_from out _ = none

unfoldable pub parse_triples : List ℕ → Option (Dict Triple)
parse_triples payload = parse_triples_from [] payload

-- payload.decode("utf-16-be", errors="ignore"): a surrogate without its partner is passed over,
-- and so is an odd byte at the end.
unfoldable pub decode_utf16 : List ℕ → Text
decode_utf16 [] = []
decode_utf16 (h ∷ []) = []
decode_utf16 (h ∷ l ∷ []) =
    let unit = from_bytes (h ∷ l ∷ []) in
    if leb 0xd800 unit && ltb unit 0xe000 then [] else unit ∷ []
decode_utf16 (h ∷ l ∷ k ∷ []) =
    let unit = from_bytes (h ∷ l ∷ []) in
    if leb 0xd800 unit && ltb unit 0xe000 then [] else unit ∷ []
decode_utf16 (h ∷ l ∷ h' ∷ l' ∷ rest) =
    let unit = from_bytes (h ∷ l ∷ []) in
    let next = from_bytes (h' ∷ l' ∷ []) in
    elim (leb 0xd800 unit && ltb unit 0xdc00 && leb 0xdc00 next && ltb next 0xe000) [
      | true ↦ (0x10000 + (unit - 0xd800) * 0x400 + (next - 0xdc00)) ∷ decode_utf16 rest
      | false ↦
          let tail = decode_utf16 (h' ∷ l' ∷ rest) in
          if leb 0xd800 unit && ltb unit 0xe000 then tail else unit ∷ tail
    ]

-- s.split("\x00", 1)[0]
unfoldable pub until_nul : Text → Text
until_nul [] = []
until_nul (c ∷ s) = let rest = until_nul s in if c == 0 then [] else c ∷ rest

-- name or None
abbrev pub non_empty : Text → Option Text
non_empty [] = none
non_empty (c ∷ s) = some (c ∷ s)

unfoldable pub decode_text : List ℕ → Option Text
decode_text payload = non_empty (strip (until_nul (decode_utf16 payload)))

-- The loop of `decode_slot_cells`: `left` slots from `slot` on, the first cell at the head.
unfoldable pub slot_cells_from : ℕ → ℕ → List ℕ → Dict (Option Text)
slot_cells_from zero slot cells = []
slot_cells_from (suc left) slot cells =
    let rest = slot_cells_from left (slot + 1) (drop 21 cells) in
    if ltb (length (take 20 cells)) 2 then [] else (slot, decode_text (take 20 cells)) ∷ rest

unfoldable pub decode_slot_cells : List ℕ → Dict (Option Text)
decode_slot_cells (first ∷ last ∷ cells) =
    if ltb last first then [] else slot_cells_from (last + 1 - first) first cells
decode_slot_cells _ = []

-- The names of the cells that have one.
unfoldable pub decode_slot_names : Dict (Option Text) → Dict Text
decode_slot_names [] = []
decode_slot_names ((slot, none) ∷ cells) = decode_slot_names cells
decode_slot_names ((slot, some name) ∷ cells) = (slot, name) ∷ decode_slot_names cells

-- sorted(props)
unfoldable pub insert_sorted : Text → List Text → List Text
insert_sorted n [] = n ∷ []
insert_sorted n (m ∷ ms) =
    let rest = insert_sorted n ms in if text_leb n m then n ∷ m ∷ ms else m ∷ rest

unfoldable pub sorted_names : Props → List Text
sorted_names [] = []
sorted_names ((n, p) ∷ props) = insert_sorted n (sorted_names props)

-- props.get(name)
unfoldable pub get_prop : Text → Props → Option Prop
get_prop n [] = none
get_prop n ((m, p) ∷ props) = if text_eq n m then some p else get_prop n props

unfoldable pub blobs_of : Props → List Text → List (Text × Blob)
blobs_of props [] = []
blobs_of props (n ∷ ns) =
    let rest = blobs_of props ns in
    elim (decode_blob (value_of (get_prop n props))) [ none ↦ rest | some blob ↦ (n, blob) ∷ rest ]

unfoldable pub iter_blobs : Props → List (Text × Blob)
iter_blobs props = blobs_of props (sorted_names props)

-- (name, "".join(value.split())) where the value is of a family that is read.
abbrev fingerprint_of : Text → Value → List (Text × Text)
fingerprint_of n other = []
fingerprint_of n (text s) = elim (blob_family (text s)) [
  | none ↦ []
  | some f ↦ elim (family_labels f) [ none ↦ [] | some l ↦ (n, join_split s) ∷ [] ]
]

unfoldable pub fingerprint_from : Props → List Text → List (Text × Text)
fingerprint_from props [] = []
fingerprint_from props (n ∷ ns) =
    fingerprint_of n (value_of (get_prop n props)) ++ fingerprint_from props ns

unfoldable pub catalog_fingerprint : Props → List (Text × Text)
catalog_fingerprint props = fingerprint_from props (sorted_names props)
