-- ===== src/Message/Delete2.antt =====
-- Delete2Message of pkg/message/delete2_message.go.
use yproxy.Base.{
  ◌≡◌, Option, some, Bool, true, false, [], ◌∷◌, ◌++◌, arith, ◌==◌, if◌then◌else◌, get_elem?, ◌>>=◌,
}
use yproxy.Bytes.{Bytes, slice_from}
use yproxy.Message.Cstring.{get_cstring, get_cstring-append, NoNul}
use yproxy.Message.Frame.{frame}
use yproxy.Message.Kind.{message_type_delete2}

pub record Delete2Message : Type 0 where
  pub prefix : Bytes
  pub confirm : Bool
  pub garbage : Bool

abbrev pub empty : Delete2Message
empty = record { prefix = []; confirm = false; garbage = false }

unfoldable pub payload : Delete2Message → Bytes
payload c =
    message_type_delete2
    ∷ (if c.confirm then 1 else 0)
    ∷ (if c.garbage then 1 else 0)
    ∷ 0
    ∷ (c.prefix ++ 0 ∷ [])

unfoldable pub encode : Delete2Message → Bytes
encode c = frame (payload c)

unfoldable pub decode : Delete2Message → Bytes → Option Delete2Message
decode c body = do
  confirm ← get_elem? body 1
  garbage ← get_elem? body 2
  at_prefix ← slice_from 4 body
  let (prefix, _) = get_cstring at_prefix
  some (record c {
    prefix = prefix;
    confirm = if confirm == 1 then true else c.confirm;
    garbage = if garbage == 1 then true else c.garbage;
  })

-- Decode gives back the message that Encode wrote, if its prefix has no NUL.
pub decode-payload_delete2 :
    (m : Delete2Message) → NoNul m.prefix → decode empty (payload m) ≡ some m
unfolding decode payload
decode-payload_delete2 m h = rw (get_cstring-append m.prefix [] h) (ground arith)
