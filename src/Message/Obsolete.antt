-- ===== src/Message/Obsolete.antt =====
-- CollectObsoleteMessage and DeleteObsoleteMessage of pkg/message/obsolete_message.go. The two
-- have the same fields and the same code but for the type byte.
use yproxy.Base.{
  ℕ, ◌+◌, ◌≡◌, refl, Option, none, some, [], ◌∷◌, ◌++◌, arith, ◌==◌, if◌then◌else◌, length,
  length-append, ◌>>=◌,
}
use yproxy.Bytes.{
  Bytes, IsU64, slice, slice_from, slice-append, length-slice_from, u64, put_u64, u64-put_u64,
  slice-put_u64, sub_int, sub_int-add,
}
use yproxy.Message.Cstring.{slice_from-cstring, NoNul}
use yproxy.Message.Frame.{frame}
use yproxy.Message.Kind.{MessageType, message_collect_obsolete, message_delete_obsolete}

pub record ObsoleteMessage : Type 0 where
  pub segnum : ℕ
  pub port : ℕ
  pub db_name : Bytes
  pub message : Bytes

abbrev pub empty : ObsoleteMessage
empty = record { segnum = 0; port = 0; db_name = []; message = [] }

-- NewCollectObsoleteMessage and NewDeleteObsoleteMessage
unfoldable pub new : Bytes → Bytes → ObsoleteMessage
new db_name msg = record { segnum = 0; port = 0; db_name = db_name; message = msg }

-- What Encode frames: neither the segment number nor the port is written.
unfoldable pub payload : MessageType → ObsoleteMessage → Bytes
payload tp c =
    tp
    ∷ 0
    ∷ 0
    ∷ 0
    ∷ (put_u64 (length c.db_name) ++ (c.db_name ++ (put_u64 (length c.message) ++ c.message)))

unfoldable pub encode_collect : ObsoleteMessage → Bytes
encode_collect c = frame (payload message_collect_obsolete c)

unfoldable pub encode_delete : ObsoleteMessage → Bytes
encode_delete c = frame (payload message_delete_obsolete c)

-- bytes.IndexByte(b, 0); `none` is -1.
unfoldable pub index_nul : Bytes → Option ℕ
index_nul [] = none
index_nul (c ∷ b) =
    if c == 0 then some 0 else elim (index_nul b) [ none ↦ none | some n ↦ some (n + 1) ]

-- With no NUL the bound 20 - 1 lies below 20, and the slice panics.
unfoldable pub decode : ObsoleteMessage → Bytes → Option ObsoleteMessage
decode c body = do
  segnum ← slice 4 12 body >>= u64
  port ← slice 12 20 body >>= u64
  at_name ← slice_from 20 body
  n ← index_nul at_name
  db_name ← slice 20 (20 + n) body
  last ← sub_int (length body) 1
  message ← slice (20 + n + 1) last body
  some (record { segnum = segnum; port = port; db_name = db_name; message = message })

-- The body that Decode is written for: both numbers, and two strings with a NUL behind each.
abbrev pub wire : MessageType → ObsoleteMessage → Bytes
wire tp m =
    tp
    ∷ 0
    ∷ 0
    ∷ 0
    ∷ (put_u64 m.segnum ++ (put_u64 m.port ++ (m.db_name ++ 0 ∷ (m.message ++ 0 ∷ []))))

pub record IsSendable (m : ObsoleteMessage) : Type 0 where
  pub segnum_fits : IsU64 m.segnum
  pub port_fits : IsU64 m.port
  pub db_name_no_nul : NoNul m.db_name

index_nul-append : (s rest : Bytes) → NoNul s → index_nul (s ++ 0 ∷ rest) ≡ some (length s)
unfolding index_nul
index_nul-append [] rest h = refl
index_nul-append (c ∷ s) rest h = ground (arith, index_nul-append s rest h.1)

-- Decode reads every field back from a body that lists the two numbers and the two strings, each
-- string with a NUL behind it, if the first string has none.
pub decode-wire :
    (tp : MessageType) (c m : ObsoleteMessage) → IsSendable m → decode c (wire tp m) ≡ some m
unfolding decode
decode-wire tp c m h =
    let body = wire tp m in
    let tail = m.message ++ 0 ∷ [] in
    let at_port = slice-put_u64 4 body (put_u64 m.port ++ (m.db_name ++ 0 ∷ tail)) m.segnum refl in
    let at_name = slice-put_u64 12 body (m.db_name ++ 0 ∷ tail) m.port at_port.1 in
    let name = slice-append 20 (20 + length m.db_name) body m.db_name (0 ∷ tail) at_name.1 refl in
    let place : 20 + (length m.db_name + 1) ≡ 20 + length m.db_name + 1 = omega arith in
    let at_message : slice_from (20 + length m.db_name + 1) body ≡ some tail =
      rw place at (slice_from-cstring 20 body m.db_name tail at_name.1) in
    let start = 20 + length m.db_name + 1 in
    let message =
      slice-append start (start + length m.message) body m.message (0 ∷ []) at_message refl in
    let size : length body ≡ start + length m.message + 1 =
      omega (
        arith,
        length-slice_from start body tail at_message,
        length-append {0} m.message (0 ∷ []),
      ) in
    let last : sub_int (length body) 1 ≡ some (start + length m.message) =
      rw size (sub_int-add (start + length m.message) 1) in
    rw
      (
        at_port.0,
        u64-put_u64 m.segnum h.segnum_fits,
        at_name.0,
        u64-put_u64 m.port h.port_fits,
        at_name.1,
        index_nul-append m.db_name tail h.db_name_no_nul,
        name.0,
        last,
        message.0,
      )
      refl

decode_segnum :
    (c m' : ObsoleteMessage) (body : Bytes)
    → decode c body ≡ some m'
    → (slice 4 12 body >>= u64) ≡ some m'.segnum
unfolding decode
decode_segnum c m' body e = ground arith

-- Whatever Decode makes of a body that Encode wrote, its segment number is the length of the
-- database's name, not the segment number of the message.
pub decode-payload_segnum :
    (tp : MessageType) (c m m' : ObsoleteMessage)
    → IsU64 (length m.db_name)
    → decode c (payload tp m) ≡ some m'
    → m'.segnum ≡ length m.db_name
unfolding payload
decode-payload_segnum tp c m m' h e =
    let rest = m.db_name ++ (put_u64 (length m.message) ++ m.message) in
    let at_name = slice-put_u64 4 (payload tp m) rest (length m.db_name) refl in
    let read =
      rw (at_name.0, u64-put_u64 (length m.db_name) h) at (decode_segnum c m' (payload tp m) e) in
    ground (arith, read)
