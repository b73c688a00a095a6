-- ===== src/Message/Delete.antt =====
-- DeleteMessage of pkg/message/delete_message.go.
use yproxy.Base.{
  ℕ, ◌+◌, ◌≡◌, refl, Option, some, Bool, true, false, [], ◌∷◌, ◌++◌, arith, ◌==◌, if◌then◌else◌,
  length, length-append, get_elem?, ◌>>=◌,
}
use yproxy.Bytes.{
  Bytes, IsU64, slice, slice_from, length-slice_from, u64, put_u64, u64-put_u64, length-put_u64,
  slice-put_u64, sub_int, sub_int-add,
}
use yproxy.Message.Cstring.{get_cstring, get_cstring-append, slice_from-cstring, NoNul}
use yproxy.Message.Frame.{frame}
use yproxy.Message.Kind.{message_type_delete}

pub record DeleteMessage : Type 0 where
  pub name : Bytes
  pub port : ℕ
  pub segnum : ℕ
  pub confirm : Bool
  pub garbage : Bool
  pub crazy_drop : Bool

abbrev pub empty : DeleteMessage
empty = record {
  name = [];
  port = 0;
  segnum = 0;
  confirm = false;
  garbage = false;
  crazy_drop = false;
}

unfoldable pub payload : DeleteMessage → Bytes
payload c =
    message_type_delete
    ∷ (if c.confirm then 1 else 0)
    ∷ (if c.garbage then 1 else 0)
    ∷ (if c.crazy_drop then 1 else 0)
    ∷ (c.name ++ 0 ∷ (put_u64 c.port ++ put_u64 c.segnum))

unfoldable pub encode : DeleteMessage → Bytes
encode c = frame (payload c)

-- The numbers are read from the end of the body.
unfoldable pub decode : DeleteMessage → Bytes → Option DeleteMessage
decode c body = do
  confirm ← get_elem? body 1
  garbage ← get_elem? body 2
  crazy_drop ← get_elem? body 3
  at_name ← slice_from 4 body
  let (name, _) = get_cstring at_name
  port_lo ← sub_int (length body) 16
  port_hi ← sub_int (length body) 8
  port ← slice port_lo port_hi body >>= u64
  segnum ← slice_from port_hi body >>= u64
  some (record c {
    name = name;
    port = port;
    segnum = segnum;
    confirm = if confirm == 1 then true else c.confirm;
    garbage = if garbage == 1 then true else c.garbage;
    crazy_drop = if crazy_drop == 1 then true else c.crazy_drop;
  })

pub record IsSendable (m : DeleteMessage) : Type 0 where
  pub name_no_nul : NoNul m.name
  pub port_fits : IsU64 m.port
  pub segnum_fits : IsU64 m.segnum

-- Decode gives back the message that Encode wrote, if its name has no NUL and its numbers are
-- uint64s.
pub decode-payload_delete : (m : DeleteMessage) → IsSendable m → decode empty (payload m) ≡ some m
unfolding decode payload
decode-payload_delete m h =
    let start = 4 + (length m.name + 1) in
    let at_port =
      slice_from-cstring 4 (payload m) m.name (put_u64 m.port ++ put_u64 m.segnum) refl in
    let at_segnum = slice-put_u64 start (payload m) (put_u64 m.segnum) m.port at_port in
    let size : length (payload m) ≡ start + 8 + 8 = omega (
      arith,
      length-slice_from start (payload m) (put_u64 m.port ++ put_u64 m.segnum) at_port,
      length-append {0} (put_u64 m.port) (put_u64 m.segnum),
      length-put_u64 m.port,
      length-put_u64 m.segnum,
    ) in
    let sixteen : start + 8 + 8 ≡ start + 16 = omega arith in
    let lo : sub_int (length (payload m)) 16 ≡ some start =
      rw (size, sixteen) (sub_int-add start 16) in
    let hi : sub_int (length (payload m)) 8 ≡ some (start + 8) =
      rw size (sub_int-add (start + 8) 8) in
    rw
      (
        get_cstring-append m.name (put_u64 m.port ++ put_u64 m.segnum) h.name_no_nul,
        lo,
        hi,
        at_segnum.0,
        at_segnum.1,
        u64-put_u64 m.port h.port_fits,
        u64-put_u64 m.segnum h.segnum_fits,
      )
      (ground arith)
