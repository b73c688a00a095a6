-- ===== src/Message/List.antt =====
-- ListMessage of pkg/message/list_message.go.
use yproxy.Base.{◌≡◌, refl, Option, some, [], ◌∷◌, ◌++◌, ◌>>=◌}
use yproxy.Bytes.{Bytes, slice_from}
use yproxy.Message.Cstring.{get_cstring, get_cstring-append, NoNul}
use yproxy.Message.Frame.{frame}
use yproxy.Message.Kind.{message_type_list}

pub record ListMessage : Type 0 where
  pub prefix : Bytes

abbrev pub empty : ListMessage
empty = record { prefix = [] }

unfoldable pub payload : ListMessage → Bytes
payload c = message_type_list ∷ 0 ∷ 0 ∷ 0 ∷ (c.prefix ++ 0 ∷ [])

unfoldable pub encode : ListMessage → Bytes
encode c = frame (payload c)

unfoldable pub decode : ListMessage → Bytes → Option ListMessage
decode c body = do
  at_prefix ← slice_from 4 body
  let (prefix, _) = get_cstring at_prefix
  some (record c { prefix = prefix })

-- Decode gives back the message that Encode wrote, if its prefix has no NUL.
pub decode-payload_list : (m : ListMessage) → NoNul m.prefix → decode empty (payload m) ≡ some m
unfolding decode payload
decode-payload_list m h = rw (get_cstring-append m.prefix [] h) refl
