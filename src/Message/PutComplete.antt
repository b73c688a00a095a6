-- ===== src/Message/PutComplete.antt =====
-- PutCompleteMessage of pkg/message/put_complete.go.
use Prim.Native.Nat.{◌*◌, ◌/◌, ◌%◌}
use yproxy.Base.{ℕ, ◌+◌, ◌^◌, ◌≡◌, ◌<◌, Option, none, some, [], ◌∷◌, arith, ◌>>=◌}
use yproxy.Bytes.{Bytes, slice}
use yproxy.Message.Frame.{frame}
use yproxy.Message.Kind.{message_type_put_complete}

-- The key version is a uint16.
pub record PutCompleteMessage : Type 0 where
  pub key_version : ℕ

-- binary.BigEndian.PutUint16 into two bytes
unfoldable pub payload : PutCompleteMessage → Bytes
payload c =
    message_type_put_complete ∷ 0 ∷ 0 ∷ 0 ∷ c.key_version / 2 ^ 8 % 256 ∷ c.key_version % 256 ∷ []

unfoldable pub encode : PutCompleteMessage → Bytes
encode c = frame (payload c)

-- binary.BigEndian.Uint16
u16 : Bytes → Option ℕ
u16 (a ∷ b ∷ _) = some (a * 2 ^ 8 + b)
u16 _ = none

unfoldable pub decode : PutCompleteMessage → Bytes → Option PutCompleteMessage
unfolding u16
decode c body = do key_version ← slice 4 6 body >>= u16; some (record { key_version = key_version })

-- Decode gives back any 16-bit key version that Encode wrote.
pub decode-payload_put_complete :
    (c m : PutCompleteMessage) → m.key_version < 2 ^ 16 → decode c (payload m) ≡ some m
unfolding decode payload slice
decode-payload_put_complete c m h = ground arith
