-- ===== src/Command/Build.antt =====
-- The builders on bytes: what each returns, and when it raises.
use delonghi_coffeelink.Prelude.{
  ℕ, ◌^◌, ◌<◌, ◌≡◌, refl, arith, false, List, [], ◌∷◌, leb, any, lt→ltb,
}
use delonghi_coffeelink.Prelude.Result.{ok}
use delonghi_coffeelink.Bytes.{AreBytes, be4, to_bytes4}
use delonghi_coffeelink.Command.{bytes_of}

any_bytes : (ns : List ℕ) → AreBytes ns → any (leb 256) ns ≡ false
any_bytes [] h = refl
any_bytes (n ∷ ns) h = ground (arith, any_bytes ns h.1)

pub bytes_of-eq : (ns : List ℕ) → AreBytes ns → bytes_of ns ≡ ok ns
unfolding bytes_of
bytes_of-eq ns h = rw (any_bytes ns h) refl

pub to_bytes4-eq : (n : ℕ) → n < 2 ^ 32 → to_bytes4 n ≡ ok (be4 n)
unfolding to_bytes4
to_bytes4-eq n h = rw (lt→ltb n (2 ^ 32) h) refl
