-- ===== src/Client/Session.antt =====
-- ayla_client.py: the payload that registers a cloud session.
use delonghi_coffeelink.Prelude.{ℕ, ◌^◌, ◌<◌, ◌≡◌, true, some, ◌++◌, All-append}
use delonghi_coffeelink.Prelude.Int.{ℤ}
use delonghi_coffeelink.Prelude.Result.{Returns}
use delonghi_coffeelink.Bytes.{IsByte, be4, be4-AreBytes}
use delonghi_coffeelink.Base64.{b64decode}
use delonghi_coffeelink.Base64.RoundTrip.{b64decode-b64encode}
use delonghi_coffeelink.Command.{low32}
use delonghi_coffeelink.Command.Build.{to_bytes4-eq}
use delonghi_coffeelink.Command.Tail.{session_tail-eq, low32-lt}
use delonghi_coffeelink.Client.{integration_app_id_to_bytes, session_payload}

-- The payload of a session POST, for any id and a clock of 32 bits, is built and is the base64 of
-- eight bytes: the time and the 32 low bits of the id, each big-endian.
pub session_payload-decodes :
    (now : ℕ) (app_id : ℤ)
    → now < 2 ^ 32
    → Returns
        (λ payload. b64decode true payload ≡ some (be4 now ++ be4 (low32 app_id)))
        (session_payload now app_id)
unfolding session_payload integration_app_id_to_bytes
session_payload-decodes now app_id fits =
    rw (to_bytes4-eq now fits, session_tail-eq app_id)
      (b64decode-b64encode true (be4 now ++ be4 (low32 app_id)) (
        All-append IsByte (be4 now) (be4 (low32 app_id)) (be4-AreBytes now fits)
          (be4-AreBytes (low32 app_id) (low32-lt app_id))))
