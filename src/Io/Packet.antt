-- ===== src/Io/Packet.antt =====
-- ProtoReader.ReadPacket of pkg/io/proto_reader.go. A connection is the bytes that the peer has
-- still to deliver before it ends the stream.
pub mod FirstByte
pub mod Sound
use yproxy.Base.{
  ℕ, zero, suc, ◌+◌, ◌-◌, ◌*◌, ◌^◌, ◌≤◌, ◌<◌, ◌≡◌, ◌≢◌, refl, sym, ap, ◌∙◌, Bool, true, false,
  Option, none, some, List, [], ◌∷◌, ◌++◌, append_assoc, arith, ltb, leb, ◌==◌, if◌then◌else◌,
  length, length-append, take, drop, take-length-append, drop-length-append, get_elem?,
}
use yproxy.Bytes.{Bytes, u64, put_u64, u64-put_u64, length-put_u64}
use yproxy.Message.Kind.{MessageType}
use yproxy.Message.Frame.{frame}

-- The errors of ReadPacket: those of io.ReadFull, and its own two.
pub data ReadError : Type 0 where
  eof unexpected_eof too_big empty_message : ReadError

-- `panic` is the run-time panic of an index out of range.
pub data Read {ℓ} (A : Type ℓ) : Type ℓ where
  ok : A → Read A
  err : ReadError → Read A
  panic : Read A

-- io.ReadFull into a buffer of `n` bytes
unfoldable pub read_full : ℕ → Bytes → Read Bytes × Bytes
read_full n conn =
    if leb n (length conn)
    then (ok (take n conn), drop n conn)
    else (err (if length conn == 0 then eof else unexpected_eof), [])

-- 1<<20 | 1<<10
abbrev pub max_msg_len : ℕ
max_msg_len = 1049600

-- The data is read, and `data[0]` is its type.
pub with_type : Read Bytes × Bytes → Read (MessageType × Bytes) × Bytes
with_type (ok [], conn) = (panic, conn)
with_type (ok (tp ∷ data'), conn) = (ok (tp, tp ∷ data'), conn)
with_type (err e, conn) = (err e, conn)
with_type (panic, conn) = (panic, conn)

-- The length is read, and is checked.
pub with_length : Read Bytes × Bytes → Read (MessageType × Bytes) × Bytes
unfolding with_type
with_length (ok msg_len_buf, conn) = elim (u64 msg_len_buf) [
  | none ↦ (panic, conn)
  | some data_len ↦
      if ltb max_msg_len data_len
      then (err too_big, conn)
      else if leb data_len 8
      then (err empty_message, conn)
      else with_type (read_full (data_len - 8) conn)
]
with_length (err e, conn) = (err e, conn)
with_length (panic, conn) = (panic, conn)

unfoldable pub read_packet : Bytes → Read (MessageType × Bytes) × Bytes
unfolding with_length read_full
read_packet conn = with_length (read_full 8 conn)

pub read_full-append :
    (s rest : Bytes) (n : ℕ) → n ≡ length s → read_full n (s ++ rest) ≡ (ok s, rest)
unfolding read_full
read_full-append s rest n e =
    rw (e, fits, take-length-append s rest, drop-length-append s rest) refl
  where
    fits : leb (length s) (length (s ++ rest)) ≡ true
    fits = ground (arith, length-append s rest)

-- ReadPacket gives back the body that an Encode framed, with its first byte as its type, and
-- leaves what follows the packet on the connection.
pub read_packet-frame :
    (tp : MessageType) (body rest : Bytes)
    → length (tp ∷ body) + 8 ≤ max_msg_len
    → read_packet (frame (tp ∷ body) ++ rest) ≡ (ok (tp, tp ∷ body), rest)
unfolding read_packet with_length with_type frame
read_packet-frame tp body rest h =
    let size : ℕ = length (tp ∷ body) + 8 in
    let not_big : ltb max_msg_len size ≡ false = ground arith in
    let not_empty : leb size 8 ≡ false = ground arith in
    let body_size : length (tp ∷ body) ≡ size - 8 = omega arith in
    rw
      (
        append_assoc (put_u64 size) (tp ∷ body) rest,
        read_full-append (put_u64 size) (tp ∷ body ++ rest) 8 (sym (length-put_u64 size)),
        u64-put_u64 size (omega arith),
        with_length,
        not_big,
        not_empty,
        read_full-append (tp ∷ body) rest (size - 8) (sym body_size),
      )
      refl
