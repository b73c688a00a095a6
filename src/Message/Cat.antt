-- ===== src/Message/Cat.antt =====
-- CatMessage of pkg/message/cat_message.go.
use yproxy.Base.{
  ℕ, ◌+◌, ◌≡◌, refl, Option, some, Bool, true, false, [], ◌∷◌, ◌++◌, arith, ◌==◌, if◌then◌else◌,
  length, get_elem?, ◌>>=◌,
}
use yproxy.Bytes.{Bytes, IsU64, slice_from, u64, put_u64, u64-put_u64}
use yproxy.Message.Cstring.{get_cstring, get_cstring-append, slice_from-cstring, NoNul}
use yproxy.Message.Frame.{frame}
use yproxy.Message.Kind.{message_type_cat, decrypt_message, no_decrypt_message, extended_message}

pub record CatMessage : Type 0 where
  pub decrypt : Bool
  pub name : Bytes
  pub start_offset : ℕ

abbrev pub empty : CatMessage
empty = record { decrypt = false; name = []; start_offset = 0 }

-- The offset is written only if it is not 0, and byte 2 says so.
unfoldable pub payload : CatMessage → Bytes
payload c =
    message_type_cat
    ∷ (if c.decrypt then decrypt_message else no_decrypt_message)
    ∷ (if c.start_offset == 0 then 0 else extended_message)
    ∷ 0
    ∷ (c.name ++ 0 ∷ (if c.start_offset == 0 then [] else put_u64 c.start_offset))

unfoldable pub encode : CatMessage → Bytes
encode c = frame (payload c)

unfoldable pub decode : CatMessage → Bytes → Option CatMessage
decode c body = do
  at_name ← slice_from 4 body
  let (name, _) = get_cstring at_name
  decrypt ← get_elem? body 1
  extended ← get_elem? body 2
  start_offset ←
      if extended == extended_message
      then (slice_from (4 + length name + 1) body >>= u64)
      else some c.start_offset
  some (record c {
    decrypt = if decrypt == decrypt_message then true else c.decrypt;
    name = name;
    start_offset = start_offset;
  })

-- Decode gives back the message that Encode wrote, with an offset or with none, if its name has
-- no NUL and its offset is a uint64.
pub decode-payload_cat :
    (m : CatMessage) → NoNul m.name → IsU64 m.start_offset → decode empty (payload m) ≡ some m
unfolding decode payload
decode-payload_cat m h fits =
    let tail : Bytes = if m.start_offset == 0 then [] else put_u64 m.start_offset in
    let at_offset = slice_from-cstring 4 (payload m) m.name tail refl in
    let place : 4 + length m.name + 1 ≡ 4 + (length m.name + 1) = omega arith in
    rw (get_cstring-append m.name tail h, place, at_offset)
      (ground (arith, u64-put_u64 m.start_offset))
