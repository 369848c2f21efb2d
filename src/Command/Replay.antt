-- ===== src/Command/Replay.antt =====
-- command_builder.py: what a captured frame becomes when it is replayed.
use delonghi_coffeelink.Prelude.{
  ℕ, suc, ◌+◌, ◌^◌, ◌<◌, ◌≡◌, refl, sym, ap, ◌∙◌, arith, false, some, List, ◌∷◌, ◌++◌, length, take,
  drop, leb-true, append_assoc, length-append, take-append, drop-append,
}
use delonghi_coffeelink.Prelude.Result.{ok}
use delonghi_coffeelink.Bytes.{AreBytes, be4}
use delonghi_coffeelink.Base64.{b64encode}
use delonghi_coffeelink.Base64.RoundTrip.{b64decode-b64encode, join_split-b64encode}
use delonghi_coffeelink.Command.Build.{to_bytes4-eq}
use delonghi_coffeelink.Command.Inspect.{index, stamp, replay_bytes, replay_with_timestamp}

-- A frame whose length byte counts the bytes behind the prefix.
abbrev pub framed : ℕ → List ℕ → List ℕ
framed prefix body = prefix ∷ suc (length body) ∷ body

stamp-framed :
    (prefix ts : ℕ) (body old rest : List ℕ)
    → length old ≡ 4
    → ts < 2 ^ 32
    → stamp (framed prefix body ++ (old ++ rest)) ts ≡ ok (framed prefix body ++ (be4 ts ++ rest))
unfolding stamp index
stamp-framed prefix ts body old rest four fits =
    let n : ℕ = suc (length body) in
    let raw : List ℕ = framed prefix body ++ (old ++ rest) in
    let size : length raw ≡ n + 1 + 4 + length rest =
      omega (arith, length-append body (old ++ rest), length-append old rest) in
    let front : take (n + 1) raw ≡ framed prefix body =
      take-append (framed prefix body) (old ++ rest) (n + 1) (omega arith) in
    let back : drop (n + 1 + 4) raw ≡ rest =
      ap (drop (n + 1 + 4)) (sym (append_assoc (framed prefix body) old rest))
      ∙ drop-append (framed prefix body ++ old) rest (n + 1 + 4)
          (omega (arith, length-append body old)) in
    rw
      (
        leb-true 2 (length raw) (omega arith),
        leb-true (n + 1 + 4) (length raw) (omega arith),
        to_bytes4-eq ts fits,
        front,
        back,
      )
      refl

-- Replaying a captured frame of bytes with a new 32-bit timestamp replaces the four bytes behind the
-- checksum and no other byte: the frame and its checksum stay, and so does the signature behind the
-- timestamp.
pub replay_with_timestamp-framed :
    (now prefix ts : ℕ) (body old rest : List ℕ)
    → AreBytes (framed prefix body ++ (old ++ rest))
    → length old ≡ 4
    → ts < 2 ^ 32
    → replay_with_timestamp now (b64encode (framed prefix body ++ (old ++ rest))) (some ts)
      ≡ ok (b64encode (framed prefix body ++ (be4 ts ++ rest)))
unfolding replay_with_timestamp replay_bytes
replay_with_timestamp-framed now prefix ts body old rest h four fits =
    let raw : List ℕ = framed prefix body ++ (old ++ rest) in
    rw
      (
        join_split-b64encode raw h,
        b64decode-b64encode false raw h,
        stamp-framed prefix ts body old rest four fits,
      )
      refl
