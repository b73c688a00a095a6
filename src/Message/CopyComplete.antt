-- ===== src/Message/CopyComplete.antt =====
-- CopyCompleteMessage of pkg/message/copy_complete.go.
use yproxy.Base.{ℕ, ◌≡◌, refl, Option, some, [], ◌∷◌, get_elem?, ◌>>=◌}
use yproxy.Bytes.{Bytes}
use yproxy.Message.Frame.{frame}
use yproxy.Message.Kind.{message_type_copy_complete}

-- The key version is a byte.
pub record CopyCompleteMessage : Type 0 where
  pub key_version : ℕ

unfoldable pub payload : CopyCompleteMessage → Bytes
payload c = message_type_copy_complete ∷ c.key_version ∷ 0 ∷ 0 ∷ []

unfoldable pub encode : CopyCompleteMessage → Bytes
encode c = frame (payload c)

unfoldable pub decode : CopyCompleteMessage → Bytes → Option CopyCompleteMessage
decode c body = do key_version ← get_elem? body 1; some (record { key_version = key_version })

pub decode-payload_copy_complete : (c m : CopyCompleteMessage) → decode c (payload m) ≡ some m
unfolding decode payload
decode-payload_copy_complete c m = refl
