-- ===== src/Proc/Put/Upload.antt =====
-- The loop of the goroutine of ProcessPutExtended (pkg/proc/interaction.go) on the packets of a
-- client.
use yproxy.Base.{
  ℕ, zero, suc, ◌+◌, ◌^◌, ◌≤◌, ◌<◌, ◌≡◌, ◌≢◌, refl, sym, ap, true, false, Option, none, some, inl,
  inr, List, [], ◌∷◌, ◌++◌, append-nil, length, length-append, All, arith, lt→ltb, ◌==◌,
  if◌then◌else◌, Option-cases, Bool-cases, ◌>>=◌,
}
use yproxy.Bytes.{Bytes, slice_to, slice_to-append, put_u64, length-put_u64}
use yproxy.Io.Packet.{Read, ok, err, panic, read_packet, read_packet-frame, max_msg_len}
use yproxy.Io.Packet.Sound.{length-read_packet}
use yproxy.Message.Frame.{frame}
use yproxy.Message.Kind.{MessageType, message_type_copy_data, message_type_copy_done}
use yproxy.Message.CopyData as CopyData
use yproxy.Message.CopyData.{decode-payload_copy_data}
use yproxy.Yio.Writer.{WriteCloser}
use yproxy.Proc.Put.{
  Ended, done, read_failed, foreign, unfull_write, crashed, out_of_fuel, upload_loop,
}
use yproxy.Proc.Put.Client.{send_chunks}

-- A chunk fits into a packet that the server reads, with its header of 20 bytes.
abbrev pub Sendable : Bytes → Type 0
Sendable c = (0 < length c) × (length c + 20 ≤ max_msg_len)

abbrev pub chunk_packet : Bytes → Bytes
chunk_packet c = frame (message_type_copy_data ∷ 0 ∷ 0 ∷ 0 ∷ (put_u64 (length c) ++ c))

abbrev pub chunk_packets : List Bytes → Bytes
chunk_packets [] = []
chunk_packets (c ∷ cs) = chunk_packet c ++ chunk_packets cs

length-frame : (bt : Bytes) → length (frame bt) ≡ 8 + length bt
unfolding frame
length-frame bt =
    omega (arith, length-append (put_u64 (length bt + 8)) bt, length-put_u64 (length bt + 8))

-- There are no more chunks than bytes of their packets.
pub length-chunk_packets : (cs : List Bytes) → length cs ≤ length (chunk_packets cs)
length-chunk_packets [] = omega arith
length-chunk_packets (c ∷ cs) =
    let size = length-frame (message_type_copy_data ∷ 0 ∷ 0 ∷ 0 ∷ (put_u64 (length c) ++ c)) in
    omega (arith, size, length-chunk_packets cs, length-append (chunk_packet c) (chunk_packets cs))

encode-chunk :
    (c : Bytes) → CopyData.encode (record { sz = length c; bytes = c }) ≡ some (chunk_packet c)
unfolding CopyData.encode CopyData.payload
encode-chunk c =
    rw (ap (λ (b : Bytes). slice_to (length c) b) (sym (append-nil c)), slice_to-append c []) refl

pub send_chunks_packets :
    (cs : List Bytes) → All Sendable cs → send_chunks cs ≡ some (chunk_packets cs)
unfolding send_chunks
send_chunks_packets [] h = refl
send_chunks_packets (c ∷ cs) h =
    rw (lt→ltb _ _ h.0.0, encode-chunk c, send_chunks_packets cs h.1) refl

decode-chunk :
    (c : Bytes)
    → length c < 2 ^ 63
    → CopyData.decode CopyData.empty
        (message_type_copy_data ∷ 0 ∷ 0 ∷ 0 ∷ (put_u64 (length c) ++ c))
      ≡ some (record { sz = length c; bytes = c })
unfolding CopyData.payload
decode-chunk c h =
    let e : (CopyData.payload (record { sz = length c; bytes = c ++ [] })
          >>= CopyData.decode CopyData.empty)
        ≡ some (record { sz = length c; bytes = c }) =
      decode-payload_copy_data c [] h in
    rw (slice_to-append c []) at e

-- What ends the loop at the head of a connection that starts with no chunk.
abbrev pub Stops : Bytes → Type 0
Stops conn = elim (read_packet conn).0 [
  | ok p ↦ (p.0 == message_type_copy_data) ≡ false
  | err e ↦ Unit
  | panic ↦ true ≡ false
]

unfoldable pub stop_reason : {E : Type 0} → Bytes → Ended E
stop_reason conn = elim (read_packet conn).0 [
  | ok p ↦ if p.0 == message_type_copy_done then done else foreign p.0
  | err e ↦ read_failed e
  | panic ↦ crashed
]

module _ {W E : Type 0} (ww : WriteCloser W E) where
  pub upload_loop-chunk :
      (c t : Bytes) (fuel : ℕ) (w : W)
      → Sendable c
      → (ww.write c w).0 ≡ (length c, none)
      → upload_loop ww (suc fuel) (chunk_packet c ++ t) w ≡ upload_loop ww fuel t (ww.write c w).1
  unfolding upload_loop
  upload_loop-chunk c t fuel w h taken =
      let same : (length c == length c) ≡ true = ground arith in
      let failure : (ww.write c w).0.1 ≡ none = ap (λ (r : ℕ × Option E). r.1) taken in
      let count : (ww.write c w).0.0 ≡ length c = ap (λ (r : ℕ × Option E). r.0) taken in
      let packet =
        read_packet-frame message_type_copy_data (0 ∷ 0 ∷ 0 ∷ (put_u64 (length c) ++ c)) t
          (omega (arith, h.1, length-append (put_u64 (length c)) c, length-put_u64 (length c))) in
      rw (upload_loop, packet, decode-chunk c (omega (arith, h.1)), failure, count, same)
        (ap
          (λ (read : Read (MessageType × Bytes) × Bytes).
            upload_loop ww fuel read.1 (ww.write c w).1)
          packet)

  pub upload_loop-Stops :
      (t : Bytes) (fuel : ℕ) (w : W)
      → Stops t
      → upload_loop ww (suc fuel) t w ≡ (stop_reason t, (read_packet t).1, w)
  unfolding upload_loop stop_reason
  upload_loop-Stops t fuel w h = ground (arith, h)

  pub upload_loop-unfull :
      (c t : Bytes) (fuel n : ℕ) (w : W)
      → Sendable c
      → (n == length c) ≡ false
      → (ww.write c w).0 ≡ (n, none)
      → upload_loop ww (suc fuel) (chunk_packet c ++ t) w ≡ (unfull_write, t, (ww.write c w).1)
  unfolding upload_loop
  upload_loop-unfull c t fuel n w h less taken =
      let failure : (ww.write c w).0.1 ≡ none = ap (λ (r : ℕ × Option E). r.1) taken in
      let count : (ww.write c w).0.0 ≡ n = ap (λ (r : ℕ × Option E). r.0) taken in
      let packet =
        read_packet-frame message_type_copy_data (0 ∷ 0 ∷ 0 ∷ (put_u64 (length c) ++ c)) t
          (omega (arith, h.1, length-append (put_u64 (length c)) c, length-put_u64 (length c))) in
      rw (upload_loop, packet, decode-chunk c (omega (arith, h.1)), failure, count, less)
        (ap
          (λ (read : Read (MessageType × Bytes) × Bytes). (unfull_write, read.1, (ww.write c w).1))
          packet)

  upload_step-ne-out_of_fuel :
      (fuel : ℕ) (conn : Bytes) (w : W)
      → ((conn' : Bytes) (w' : W)
          → length conn' < fuel
          → (upload_loop ww fuel conn' w').0 ≢ out_of_fuel)
      → length conn < suc fuel
      → (upload_loop ww (suc fuel) conn w).0 ≢ out_of_fuel
  unfolding upload_loop
  upload_step-ne-out_of_fuel fuel conn w later h = from_read (read_packet conn) refl
    where
      from_read :
          (read : Read (MessageType × Bytes) × Bytes)
          → read_packet conn ≡ read
          → (upload_loop ww (suc fuel) conn w).0 ≢ out_of_fuel
      from_read (ok p, conn') e =
          let less = length-read_packet conn conn' p e in
          let left : length (read_packet conn).1 < fuel =
            omega (arith, ap (λ (r : Read (MessageType × Bytes) × Bytes). length r.1) e) in
          rw (upload_loop, e)
            (elim (Bool-cases (p.0 == message_type_copy_data)) [
              | inl chunk ↦ elim (Option-cases (CopyData.decode CopyData.empty p.1)) [
                | inl bad ↦ rw (chunk, bad) (λ k. cc)
                | inr (msg, good) ↦
                    rw (chunk, good)
                      (ground (arith, later (read_packet conn).1 (ww.write msg.bytes w).1 left))
              ]
              | inr other ↦ rw other (ground arith)
            ])
      from_read (err x, conn') e = rw (upload_loop, e) (λ k. cc)
      from_read (panic, conn') e = rw (upload_loop, e) (λ k. cc)

  -- The loop ends before its fuel does, since each packet takes bytes off the connection.
  pub upload_loop-ne-out_of_fuel :
      (fuel : ℕ) (conn : Bytes) (w : W)
      → length conn < fuel
      → (upload_loop ww fuel conn w).0 ≢ out_of_fuel
  upload_loop-ne-out_of_fuel zero conn w h = absurd (omega arith)
  upload_loop-ne-out_of_fuel (suc fuel) conn w h =
      upload_step-ne-out_of_fuel fuel conn w (upload_loop-ne-out_of_fuel fuel) h
