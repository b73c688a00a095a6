-- ===== src/Message/Put.antt =====
-- PutMessage of pkg/message/put_message.go.
use yproxy.Base.{
  ◌≡◌, Option, some, Bool, true, false, [], ◌∷◌, ◌++◌, arith, ◌==◌, if◌then◌else◌, get_elem?, ◌>>=◌,
}
use yproxy.Bytes.{Bytes, slice_from}
use yproxy.Message.Cstring.{get_cstring, get_cstring-append, NoNul}
use yproxy.Message.Frame.{frame}
use yproxy.Message.Kind.{message_type_put, encrypt_message, no_encrypt_message}

pub record PutMessage : Type 0 where
  pub encrypt : Bool
  pub name : Bytes

-- The zero value that a handler decodes into.
abbrev pub empty : PutMessage
empty = record { encrypt = false; name = [] }

-- What Encode frames.
unfoldable pub payload : PutMessage → Bytes
payload c =
    message_type_put
    ∷ (if c.encrypt then encrypt_message else no_encrypt_message)
    ∷ 0
    ∷ 0
    ∷ (c.name ++ 0 ∷ [])

unfoldable pub encode : PutMessage → Bytes
encode c = frame (payload c)

-- Decode writes into the receiver, and keeps a flag that was set.
unfoldable pub decode : PutMessage → Bytes → Option PutMessage
decode c body = do
  flag ← get_elem? body 1
  at_name ← slice_from 4 body
  let (name, _) = get_cstring at_name
  some (
      if flag == encrypt_message
      then record c { encrypt = true; name = name }
      else record c { name = name })

-- Decode gives back the message that Encode wrote, if its name has no NUL.
pub decode-payload_put : (m : PutMessage) → NoNul m.name → decode empty (payload m) ≡ some m
unfolding decode payload
decode-payload_put m h = rw (get_cstring-append m.name [] h) (ground arith)
