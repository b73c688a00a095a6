-- ===== src/Message/Patch.antt =====
-- PatchMessage of pkg/message/patch_message.go.
use yproxy.Base.{
  ℕ, ◌≡◌, refl, Option, some, Bool, true, false, [], ◌∷◌, ◌++◌, arith, ◌==◌, if◌then◌else◌,
  get_elem?, ◌>>=◌,
}
use yproxy.Bytes.{Bytes, IsU64, slice, slice_from, u64, put_u64, u64-put_u64, slice-put_u64}
use yproxy.Message.Cstring.{NoNul}
use yproxy.Message.Frame.{frame}
use yproxy.Message.Cstring.{name_loop, name_loop-append}
use yproxy.Message.Kind.{message_type_patch, encrypt_message, no_encrypt_message}

pub record PatchMessage : Type 0 where
  pub encrypt : Bool
  pub offset : ℕ
  pub name : Bytes

abbrev pub empty : PatchMessage
empty = record { encrypt = false; offset = 0; name = [] }

unfoldable pub payload : PatchMessage → Bytes
payload c =
    message_type_patch
    ∷ (if c.encrypt then encrypt_message else no_encrypt_message)
    ∷ 0
    ∷ 0
    ∷ (put_u64 c.offset ++ (c.name ++ 0 ∷ []))

unfoldable pub encode : PatchMessage → Bytes
encode c = frame (payload c)

unfoldable pub get_patch_name : Bytes → Bytes
unfolding name_loop
get_patch_name b = name_loop [] b

unfoldable pub decode : PatchMessage → Bytes → Option PatchMessage
decode c body = do
  flag ← get_elem? body 1
  offset ← slice 4 12 body >>= u64
  at_name ← slice_from 12 body
  some (record c {
    encrypt = if flag == encrypt_message then true else c.encrypt;
    offset = offset;
    name = get_patch_name at_name;
  })

-- Decode gives back the message that Encode wrote, if its name has no NUL and its offset is a
-- uint64.
pub decode-payload_patch :
    (m : PatchMessage) → NoNul m.name → IsU64 m.offset → decode empty (payload m) ≡ some m
unfolding decode payload get_patch_name
decode-payload_patch m h fits =
    let at_offset = slice-put_u64 4 (payload m) (m.name ++ 0 ∷ []) m.offset refl in
    rw (at_offset.0, at_offset.1, u64-put_u64 m.offset fits, name_loop-append m.name [] [] h)
      (ground arith)
