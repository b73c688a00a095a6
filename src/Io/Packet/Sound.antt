-- ===== src/Io/Packet/Sound.antt =====
-- ReadPacket of pkg/io/proto_reader.go on any input.
use yproxy.Base.{
  ℕ, ◌+◌, ◌-◌, ◌*◌, ◌/◌, ◌%◌, ◌^◌, ◌≤◌, ◌<◌, ◌≡◌, ◌≢◌, ◌↔◌, refl, ap, subst, ◌∙◌, some, [], ◌∷◌,
  ◌++◌, append_assoc, arith, length, length-append, take-append-drop, length-take, All,
  Option-cases, inl, inr,
}
use yproxy.Bytes.{Bytes, u64, put_u64}
use yproxy.Message.Kind.{MessageType}
use yproxy.Message.Frame.{frame}
use yproxy.Io.Packet.{
  Read, ok, err, panic, read_full, max_msg_len, with_type, with_length, read_packet,
  read_packet-frame,
}

-- The bytes of a connection.
abbrev pub AreBytes : Bytes → Type 0
AreBytes = All (λ b. b < 256)

-- A complete read splits the connection at the length that was asked for.
pub read_full_ok :
    (n : ℕ) (conn s rest : Bytes)
    → read_full n conn ≡ (ok s, rest)
    → (conn ≡ s ++ rest) × (length s ≡ n)
unfolding read_full
read_full_ok n conn s rest h = ground (arith, take-append-drop n conn, length-take n conn)

read_full-ne-panic : (n : ℕ) (conn : Bytes) → (read_full n conn).0 ≢ panic
unfolding read_full
read_full-ne-panic n conn = ground arith

-- Eight bytes are the big-endian form of the number that they are read as.
put_u64-u64 :
    (buf : Bytes) (v : ℕ) → length buf ≡ 8 → AreBytes buf → u64 buf ≡ some v → put_u64 v ≡ buf
unfolding u64 put_u64
put_u64-u64 (a ∷ b ∷ c ∷ d ∷ e ∷ f ∷ g ∷ i ∷ []) v size bytes h =
    let sum : a * 2 ^ 56
          + b * 2 ^ 48
          + c * 2 ^ 40
          + d * 2 ^ 32
          + e * 2 ^ 24
          + f * 2 ^ 16
          + g * 2 ^ 8
          + i
        ≡ v =
      cc in
    let ea : v / 2 ^ 56 % 256 ≡ a = omega arith in
    let eb : v / 2 ^ 48 % 256 ≡ b = omega arith in
    let ec : v / 2 ^ 40 % 256 ≡ c = omega arith in
    let ed : v / 2 ^ 32 % 256 ≡ d = omega arith in
    let ee : v / 2 ^ 24 % 256 ≡ e = omega arith in
    let ef : v / 2 ^ 16 % 256 ≡ f = omega arith in
    let eg : v / 2 ^ 8 % 256 ≡ g = omega arith in
    let ei : v % 256 ≡ i = omega arith in rw (ea, eb, ec, ed, ee, ef, eg, ei) refl
put_u64-u64 _ v size bytes h = absurd (omega arith)

AreBytes-append : (xs ys : Bytes) → AreBytes (xs ++ ys) → AreBytes xs
AreBytes-append [] ys h = tt
AreBytes-append (x ∷ xs) ys h = (h.0, AreBytes-append xs ys h.1)

-- What the checks of the length let through.
pub with_length_ok :
    (buf conn body rest : Bytes) (tp : MessageType)
    → with_length (ok buf, conn) ≡ (ok (tp, body), rest)
    → (v : ℕ) × (u64 buf ≡ some v)
      × (v ≤ max_msg_len)
      × (8 < v)
      × (with_type (read_full (v - 8) conn) ≡ (ok (tp, body), rest))
unfolding with_length
with_length_ok buf conn body rest tp h = elim (Option-cases (u64 buf)) [
  | inl e ↦ cc (rw (e, with_length) at h)
  | inr (v, e) ↦
      let k = rw (e, with_length) at h in
      (v, e, ground (arith, k), ground (arith, k), ground (arith, k))
]

pub with_type_ok :
    (read : Read Bytes × Bytes) (body rest : Bytes) (tp : MessageType)
    → with_type read ≡ (ok (tp, body), rest)
    → (more : Bytes) × (body ≡ tp ∷ more) × (read ≡ (ok body, rest))
unfolding with_type
with_type_ok (ok [], conn) body rest tp h = ground arith
with_type_ok (ok (x ∷ more), conn) body rest tp h = (more, ground arith, ground arith)
with_type_ok (err e, conn) body rest tp h = ground arith
with_type_ok (panic, conn) body rest tp h = ground arith

-- A packet comes from a framed body.
read_packet_ok :
    (conn body rest : Bytes) (tp : MessageType)
    → AreBytes conn
    → read_packet conn ≡ (ok (tp, body), rest)
    → (more : Bytes) × (body ≡ tp ∷ more)
      × (conn ≡ frame body ++ rest)
      × (length body + 8 ≤ max_msg_len)
unfolding read_packet frame with_length
read_packet_ok conn body rest tp bytes h = from_length (read_full 8 conn) refl h
  where
    from_length :
        (read : Read Bytes × Bytes)
        → read_full 8 conn ≡ read
        → with_length read ≡ (ok (tp, body), rest)
        → (more : Bytes) × (body ≡ tp ∷ more)
          × (conn ≡ frame body ++ rest)
          × (length body + 8 ≤ max_msg_len)
    from_length (ok buf, conn') e k =
        let (v, num, small, big, typed) = with_length_ok buf conn' body rest tp k in
        let (more, head, read) = with_type_ok (read_full (v - 8) conn') body rest tp typed in
        let (outer, eight) = read_full_ok 8 conn buf conn' e in
        let (inner, size) = read_full_ok (v - 8) conn' body rest read in
        let buf_bytes : AreBytes buf = AreBytes-append buf conn' (subst AreBytes outer bytes) in
        let total : length body + 8 ≡ v = omega arith in
        let head_bytes : put_u64 (length body + 8) ≡ buf =
          rw total (put_u64-u64 buf v eight buf_bytes num) in
        (
          more,
          head,
          rw (head_bytes, append_assoc) (outer ∙ ap (λ (t : Bytes). buf ++ t) inner),
          omega arith,
        )
    from_length (err x, conn') e k = ground (arith, k)
    from_length (panic, conn') e k = ground (arith, k)

-- A packet takes bytes off the connection.
pub length-read_packet :
    (conn rest : Bytes) (p : MessageType × Bytes)
    → read_packet conn ≡ (ok p, rest)
    → length rest < length conn
unfolding read_packet with_length
length-read_packet conn rest (tp, body) h = from_length (read_full 8 conn) refl h
  where
    from_length :
        (read : Read Bytes × Bytes)
        → read_full 8 conn ≡ read
        → with_length read ≡ (ok (tp, body), rest)
        → length rest < length conn
    from_length (ok buf, conn') e k =
        let (v, num, small, big, typed) = with_length_ok buf conn' body rest tp k in
        let (more, head, read) = with_type_ok (read_full (v - 8) conn') body rest tp typed in
        let (outer, eight) = read_full_ok 8 conn buf conn' e in
        let (inner, size) = read_full_ok (v - 8) conn' body rest read in
        omega (
          arith,
          ap (length {A = ℕ}) outer,
          length-append buf conn',
          ap (length {A = ℕ}) inner,
          length-append body rest,
        )
    from_length (err x, conn') e k = ground (arith, k)
    from_length (panic, conn') e k = ground (arith, k)

-- ReadPacket returns a body, its first byte as its type and the rest of the connection, exactly
-- when the connection begins with the frame of that body and the packet is no longer than
-- the limit.
pub read_packet_iff :
    (conn body rest : Bytes) (tp : MessageType)
    → AreBytes conn
    → (read_packet conn ≡ (ok (tp, body), rest)) ↔ (
        (more : Bytes) × (body ≡ tp ∷ more)
        × (conn ≡ frame body ++ rest)
        × (length body + 8 ≤ max_msg_len))
read_packet_iff conn body rest tp bytes = (
  read_packet_ok conn body rest tp bytes,
  λ (more, head, whole, small).
      rw (whole, head)
        (read_packet-frame tp more rest
          (subst (λ (b : Bytes). length b + 8 ≤ max_msg_len) head small)),
)

read_full-ne-empty : (n : ℕ) (conn : Bytes) → 0 < n → (read_full n conn).0 ≢ ok []
read_full-ne-empty n conn h e =
    omega (arith, (read_full_ok n conn [] (read_full n conn).1 (ground (arith, e))).1)

with_type-ne-panic :
    (read : Read Bytes × Bytes) → read.0 ≢ panic → read.0 ≢ ok [] → (with_type read).0 ≢ panic
unfolding with_type
with_type-ne-panic (ok [], conn) h k = absurd (k refl)
with_type-ne-panic (ok (x ∷ more), conn) h k = λ e. cc
with_type-ne-panic (err x, conn) h k = λ e. cc
with_type-ne-panic (panic, conn) h k = absurd (h refl)

u64-some : (buf : Bytes) → length buf ≡ 8 → (v : ℕ) × (u64 buf ≡ some v)
unfolding u64
u64-some (a ∷ b ∷ c ∷ d ∷ e ∷ f ∷ g ∷ i ∷ more) h = (_, refl)
u64-some _ h = absurd (omega arith)

with_length-ne-panic : (buf conn : Bytes) → length buf ≡ 8 → (with_length (ok buf, conn)).0 ≢ panic
unfolding with_length
with_length-ne-panic buf conn h e =
    let (v, num) = u64-some buf h in
    let k = rw (num, with_length) at e in
    ground (
      arith,
      k,
      with_type-ne-panic (read_full (v - 8) conn) (read_full-ne-panic (v - 8) conn),
      read_full-ne-empty (v - 8) conn,
    )

-- No input makes ReadPacket panic.
pub read_packet-ne-panic : (conn : Bytes) → (read_packet conn).0 ≢ panic
unfolding read_packet with_length
read_packet-ne-panic conn = from_length (read_full 8 conn) refl
  where
    from_length :
        (read : Read Bytes × Bytes) → read_full 8 conn ≡ read → (with_length read).0 ≢ panic
    from_length (ok buf, conn') e =
        with_length-ne-panic buf conn' (read_full_ok 8 conn buf conn' e).1
    from_length (err x, conn') e = λ k. cc
    from_length (panic, conn') e = absurd (read_full-ne-panic 8 conn (rw e))
