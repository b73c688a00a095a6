-- ===== src/Message/Untrashify.antt =====
-- UntrashifyMessage of pkg/message/untrashify_message.go.
use yproxy.Base.{
  ℕ, ◌+◌, ◌≡◌, refl, Option, some, Bool, true, false, [], ◌∷◌, ◌++◌, arith, ◌==◌, if◌then◌else◌,
  length, get_elem?, ◌>>=◌,
}
use yproxy.Bytes.{
  Bytes, IsU64, slice_from, length-slice_from, u64, put_u64, u64-put_u64, length-put_u64, sub_int,
  sub_int-add,
}
use yproxy.Message.Cstring.{get_cstring, get_cstring-append, slice_from-cstring, NoNul}
use yproxy.Message.Frame.{frame}
use yproxy.Message.Kind.{message_type_untrashify}

pub record UntrashifyMessage : Type 0 where
  pub name : Bytes
  pub segnum : ℕ
  pub confirm : Bool

abbrev pub empty : UntrashifyMessage
empty = record { name = []; segnum = 0; confirm = false }

unfoldable pub payload : UntrashifyMessage → Bytes
payload c =
    message_type_untrashify
    ∷ (if c.confirm then 1 else 0)
    ∷ 0
    ∷ 0
    ∷ (c.name ++ 0 ∷ put_u64 c.segnum)

unfoldable pub encode : UntrashifyMessage → Bytes
encode c = frame (payload c)

unfoldable pub decode : UntrashifyMessage → Bytes → Option UntrashifyMessage
decode c body = do
  confirm ← get_elem? body 1
  at_name ← slice_from 4 body
  let (name, _) = get_cstring at_name
  lo ← sub_int (length body) 8
  segnum ← slice_from lo body >>= u64
  some (record c {
    name = name;
    segnum = segnum;
    confirm = if confirm == 1 then true else c.confirm;
  })

-- Decode gives back the message that Encode wrote, if its name has no NUL and its segment number
-- is a uint64.
pub decode-payload_untrashify :
    (m : UntrashifyMessage) → NoNul m.name → IsU64 m.segnum → decode empty (payload m) ≡ some m
unfolding decode payload
decode-payload_untrashify m h fits =
    let start = 4 + (length m.name + 1) in
    let at_segnum = slice_from-cstring 4 (payload m) m.name (put_u64 m.segnum) refl in
    let size : length (payload m) ≡ start + 8 = omega (
      arith,
      length-slice_from start (payload m) (put_u64 m.segnum) at_segnum,
      length-put_u64 m.segnum,
    ) in
    let lo : sub_int (length (payload m)) 8 ≡ some start = rw size (sub_int-add start 8) in
    rw (get_cstring-append m.name (put_u64 m.segnum) h, lo, at_segnum, u64-put_u64 m.segnum fits)
      (ground arith)
