-- ===== src/Command/Eletta.antt =====
-- command_builder.py: the frames of the Eletta, whose recipes are of any length, read back.
use delonghi_coffeelink.Prelude.{
  ℕ, ◌+◌, ◌-◌, ◌^◌, ◌≤◌, ◌<◌, ◌≡◌, ◌≢◌, refl, ap, sym, subst, ◌∙◌, arith, false, none, some, List,
  [], ◌∷◌, ◌++◌, length, length-append, slice, slice-append, take-append, append_assoc, ◌==◌,
  ==_false, ltb-false, leb-true, All-append,
}
use delonghi_coffeelink.Prelude.Result.{Returns}
use delonghi_coffeelink.Prelude.Text.{text_eq}
use delonghi_coffeelink.Bytes.{
  IsByte, AreBytes, be2, be4, be2-AreBytes, be4-AreBytes, from_bytes-be4,
}
use delonghi_coffeelink.Crc.{crc16_aug_ccitt}
use delonghi_coffeelink.Crc.Residue.{crc16_aug_ccitt-lt}
use delonghi_coffeelink.Const.{eletta_recipe_trailer}
use delonghi_coffeelink.Command.{build_eletta_beverage_command, encode_command}
use delonghi_coffeelink.Command.Build.{bytes_of-eq, to_bytes4-eq}
use delonghi_coffeelink.Command.Inspect.{
  Decoded, decode_command, decode_raw, decode_family, decode_header, decode_beverage, eletta, index,
}
use delonghi_coffeelink.Command.RoundTrip.{captured, ReadsBeverage, decode-encode, crc_self}

module _ (bev act ts : ℕ) (recipe : List ℕ) where
  -- The frame up to the recipe, up to its checksum, and the whole.
  abbrev start : List ℕ
  start = 0x0d ∷ (length recipe + 9) ∷ 0x83 ∷ 0xf0 ∷ bev ∷ act ∷ []

  abbrev body : List ℕ
  body = start ++ (recipe ++ eletta_recipe_trailer)

  abbrev check : List ℕ
  check = be2 (crc16_aug_ccitt body)

  abbrev frame : List ℕ
  frame = start ++ (recipe ++ (eletta_recipe_trailer ++ (check ++ be4 ts)))

  body-length : length body ≡ length recipe + 8
  body-length = omega (arith, length-append recipe eletta_recipe_trailer)

  frame-body : frame ≡ body ++ (check ++ be4 ts)
  frame-body =
      ap (λ (l : List ℕ). start ++ l)
        (sym (append_assoc recipe eletta_recipe_trailer (check ++ be4 ts)))

  frame-length : length frame ≡ length recipe + 14
  frame-length = omega (arith, length-append recipe (eletta_recipe_trailer ++ (check ++ be4 ts)))

  -- What stands where the decoder cuts the frame.
  trailer_part :
      slice (length recipe + 9 + 1 - 4) (length recipe + 9 + 1 - 2) frame ≡ eletta_recipe_trailer
  trailer_part =
      ap (slice (length recipe + 9 + 1 - 4) (length recipe + 9 + 1 - 2))
        (sym (append_assoc start recipe (eletta_recipe_trailer ++ (check ++ be4 ts))))
      ∙ slice-append (length recipe + 9 + 1 - 4) (length recipe + 9 + 1 - 2) (start ++ recipe)
          eletta_recipe_trailer (check ++ be4 ts) (omega arith) (omega arith)

  recipe_part : slice 6 (length recipe + 9 + 1 - 4) frame ≡ recipe
  recipe_part =
      slice-append 6 (length recipe + 9 + 1 - 4) start recipe
        (eletta_recipe_trailer ++ (check ++ be4 ts)) refl (omega arith)

  check_part : slice (length recipe + 9 + 1 - 2) (length recipe + 9 + 1) frame ≡ check
  check_part =
      ap (slice (length recipe + 9 + 1 - 2) (length recipe + 9 + 1)) frame-body
      ∙ slice-append (length recipe + 9 + 1 - 2) (length recipe + 9 + 1) body check (be4 ts)
          (omega (arith, body-length)) (omega (arith, body-length))

  body_part : slice 0 (length recipe + 9 + 1 - 2) frame ≡ body
  body_part =
      ap (slice 0 (length recipe + 9 + 1 - 2)) frame-body
      ∙ take-append body (check ++ be4 ts) (length recipe + 9 + 1 - 2 - 0)
          (omega (arith, body-length))

  time_part : slice (length recipe + 9 + 1) (length recipe + 9 + 1 + 4) frame ≡ be4 ts
  time_part =
      ap (slice (length recipe + 9 + 1) (length recipe + 9 + 1 + 4))
        (frame-body ∙ sym (append_assoc body check (be4 ts)))
      ∙ slice-append (length recipe + 9 + 1) (length recipe + 9 + 1 + 4) (body ++ check) (be4 ts) []
          (omega (arith, body-length, length-append body check))
          (omega (arith, body-length, length-append body check))

  frame_reads :
      (out : Decoded)
      → length recipe ≢ 4
      → crc16_aug_ccitt body < 2 ^ 16
      → ts < 2 ^ 32
      → out.error ≡ none
      → Returns (ReadsBeverage bev act recipe eletta ts) (decode_raw out frame)
  unfolding decode_raw decode_family decode_header decode_beverage index text_eq
  frame_reads out differs fits hts he =
      let other : (length recipe + 9 + 1 == 14) ≡ false =
        ==_false (length recipe + 9 + 1) 14 (λ e. differs (omega (arith, e))) in
      rw
        (
          leb-true 4 (length frame) (omega (arith, frame-length)),
          leb-true 8 (length frame) (omega (arith, frame-length)),
          ltb-false (length recipe + 9 + 1) 8 (omega arith),
          ltb-false (length frame) (length recipe + 9 + 1) (omega (arith, frame-length)),
        )
        (record {
          type = refl;
          beverage_id = refl;
          action = refl;
          crc_valid = ap some (rw (body_part, check_part) (crc_self (crc16_aug_ccitt body) fits));
          style_of = rw other refl;
          recipe = rw (other, trailer_part, recipe_part) refl;
          timestamp =
              rw
                (
                  leb-true (length recipe + 9 + 1 + 4) (length frame) (omega (arith, frame-length)),
                  time_part,
                )
                (ap some (from_bytes-be4 ts hts));
          no_error = he;
        })

  frame-AreBytes :
      AreBytes (bev ∷ act ∷ [])
      → AreBytes recipe
      → length recipe ≤ 246
      → crc16_aug_ccitt body < 2 ^ 16
      → ts < 2 ^ 32
      → AreBytes frame
  frame-AreBytes h hr short fits hts =
      let rest : AreBytes (recipe ++ (eletta_recipe_trailer ++ (check ++ be4 ts))) =
        All-append IsByte recipe (eletta_recipe_trailer ++ (check ++ be4 ts)) hr (
          All-append IsByte eletta_recipe_trailer (check ++ be4 ts) (omega arith)
            (All-append IsByte check (be4 ts) (be2-AreBytes _ fits) (be4-AreBytes ts hts))) in
      (omega arith, (omega arith, (omega arith, (omega arith, (h.0, (h.1.0, rest))))))

-- A beverage frame of the Eletta, with a recipe of up to 246 bytes that are not four, is built and
-- is read back as the command that it was built for: the beverage, the action, the recipe without
-- its trailer, the dialect and the timestamp.
pub decode-build_eletta :
    (now bev act ts : ℕ) (recipe : List ℕ)
    → AreBytes (bev ∷ act ∷ [])
    → AreBytes recipe
    → length recipe ≤ 246
    → length recipe ≢ 4
    → ts < 2 ^ 32
    → Returns
        (ReadsBeverage bev act recipe eletta ts)
        (captured (build_eletta_beverage_command now bev act recipe (some ts)))
unfolding build_eletta_beverage_command
decode-build_eletta now bev act ts recipe h hr short differs hts =
    let size : length (0x83 ∷ 0xf0 ∷ bev ∷ act ∷ (recipe ++ eletta_recipe_trailer)) + 3
        ≡ length recipe + 9 =
      omega (arith, length-append recipe eletta_recipe_trailer) in
    let bytes : AreBytes (body bev act ts recipe) = (
      omega arith,
      (
        omega arith,
        (
          omega arith,
          (
            omega arith,
            (h.0, (h.1.0, All-append IsByte recipe eletta_recipe_trailer hr (omega arith))),
          ),
        ),
      ),
    ) in
    let fits : crc16_aug_ccitt (body bev act ts recipe) < 2 ^ 16 =
      crc16_aug_ccitt-lt (body bev act ts recipe) bytes in
    rw
      (
        bytes_of-eq (0x83 ∷ 0xf0 ∷ bev ∷ act ∷ []) (omega arith),
        size,
        bytes_of-eq (0x0d ∷ (length recipe + 9) ∷ []) (omega arith),
        to_bytes4-eq ts hts,
      )
      (subst
        (λ (built : List ℕ).
          Returns (ReadsBeverage bev act recipe eletta ts) (decode_command (encode_command built)))
        (frame-body bev act ts recipe)
        (rw
          (decode-encode 0x0d
            ((length recipe + 9)
              ∷ 0x83
              ∷ 0xf0
              ∷ bev
              ∷ act
              ∷ (recipe ++ (eletta_recipe_trailer ++ (check bev act ts recipe ++ be4 ts))))
            (frame-AreBytes bev act ts recipe h hr short fits hts))
          (frame_reads bev act ts recipe _ differs fits hts refl)))
