-- ===== src/Message/Gool.antt =====
-- GoolMessage of pkg/message/gool_message.go.
use yproxy.Base.{◌≡◌, refl, Option, some, [], ◌∷◌, ◌++◌, arith, ◌>>=◌}
use yproxy.Bytes.{Bytes, slice_from}
use yproxy.Message.Cstring.{NoNul}
use yproxy.Message.Frame.{frame}
use yproxy.Message.Cstring.{name_loop, name_loop-append}
use yproxy.Message.Kind.{message_type_gool}

pub record GoolMessage : Type 0 where
  pub name : Bytes

abbrev pub empty : GoolMessage
empty = record { name = [] }

-- "GOOL "
abbrev pub gool_prefix : Bytes
gool_prefix = b'G' ∷ b'O' ∷ b'O' ∷ b'L' ∷ b' ' ∷ []

unfoldable pub payload : GoolMessage → Bytes
payload c = message_type_gool ∷ 0 ∷ 0 ∷ 0 ∷ ((gool_prefix ++ c.name) ++ 0 ∷ [])

unfoldable pub encode : GoolMessage → Bytes
encode c = frame (payload c)

unfoldable pub get_gool_name : Bytes → Bytes
unfolding name_loop
get_gool_name b = name_loop [] b

unfoldable pub decode : GoolMessage → Bytes → Option GoolMessage
decode c body = do at_name ← slice_from 4 body; some (record c { name = get_gool_name at_name })

-- Decode of what Encode wrote is the message with `GOOL ` in front of its name, if the name has
-- no NUL.
pub decode-payload_gool :
    (m : GoolMessage)
    → NoNul m.name
    → decode empty (payload m) ≡ some (record { name = gool_prefix ++ m.name })
unfolding decode payload get_gool_name
decode-payload_gool m h =
    rw
      (name_loop-append (gool_prefix ++ m.name) [] []
        (omega arith, (omega arith, (omega arith, (omega arith, (omega arith, h))))))
      refl
