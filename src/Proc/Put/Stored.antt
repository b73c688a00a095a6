-- ===== src/Proc/Put/Stored.antt =====
-- The object that ProcessPutExtended stores (pkg/proc/interaction.go), and what the client reads
-- back (putFunc of cmd/client/main.go).
use yproxy.Base.{
  ℕ, zero, suc, ◌≤◌, ◌<◌, min, ◌≡◌, ◌≢◌, refl, sym, ap, subst, ◌∙◌, Bool, true, false, Option, none,
  some, List, [], ◌∷◌, ◌++◌, append_assoc, append-nil, take, length, length-append,
  take-length-append, All, arith, ◌==◌,
}
use yproxy.Bytes.{Bytes, add64, put_u64, u64, slice}
use yproxy.Message.Frame.{frame}
use yproxy.Io.Packet.{read_packet, read_packet-frame}
use yproxy.Message.Kind.{message_type_copy_done}
use yproxy.Message.CopyDone.{
  encode_copy_done, copy_done_payload, encode_ready_for_query, ready_for_query_payload,
}
use yproxy.Message.PutComplete as PutComplete
use yproxy.Message.PutComplete.{decode-payload_put_complete}
use yproxy.Yio.Writer.{Limiter, YproxyWriter, counted, new_limited, new_yproxy_writer}
use yproxy.Yio.Writer.Pipe.{Pipe, pipe, opened}
use yproxy.Proc.Put.{
  Ended, done, read_failed, foreign, write_failed, unfull_write, crashed, out_of_fuel, put_end,
  put_result, Crypter, upload, upload_loop, PutFileToDest, stored, replied, put_reply, PutRequest,
  process_put_extended, reply, ready_reply, unless_failed, Outcome,
}
use yproxy.Proc.Put.Client.{key_version, send_input, read_answer}
use yproxy.Proc.Put.Upload.{
  Sendable, chunk_packet, chunk_packets, send_chunks_packets, Stops, stop_reason, upload_loop-chunk,
  upload_loop-Stops, length-chunk_packets,
}

abbrev pub concat : List Bytes → Bytes
concat [] = []
concat (c ∷ cs) = c ++ concat cs

-- A rate limiter takes a chunk in one piece.
abbrev pub Passes : {E : Type 0} → Option (Limiter E) → Bytes → Type 0
Passes none c = Unit
Passes (some lim) c = length c ≤ lim.burst

-- The writer after a chunk.
abbrev pub written : Bytes → YproxyWriter Pipe → YproxyWriter Pipe
written c y =
    let reached = add64 y.offset_reached (length c) in
    record {
      offset_reached = reached;
      byte_offset = reached;
      under = record { content = y.under.content ++ c; closed = y.under.closed };
    }

take-length : (c : Bytes) → take (length c) c ≡ c
take-length c = ap (λ (b : Bytes). take (length c) b) (sym (append-nil c)) ∙ take-length-append c []

module _ {E : Type 0} (empty_buffer closed_pipe : E) where
  pub write-chunk :
      (lim : Option (Limiter E)) (c : Bytes) (y : YproxyWriter Pipe)
      → 0 < length c
      → Passes lim c
      → y.under.closed ≡ false
      → (new_yproxy_writer empty_buffer lim (pipe closed_pipe)).write c y
        ≡ ((length c, none), written c y)
  unfolding new_yproxy_writer counted pipe new_limited
  write-chunk none c y h p live = rw live refl
  write-chunk (some lim) c y h p live =
      let some_bytes : (length c == 0) ≡ false = ground arith in
      let whole : min lim.burst (length c) ≡ length c = omega arith in
      rw (some_bytes, whole, take-length c, live) refl

  -- The loop takes every chunk into the pipe, and ends at what follows them.
  pub upload_loop-chunk_packets :
      (lim : Option (Limiter E)) (cs : List Bytes) (t : Bytes) (fuel : ℕ) (y : YproxyWriter Pipe)
      → All Sendable cs
      → All (Passes lim) cs
      → Stops t
      → y.under.closed ≡ false
      → length cs < fuel
      → (y' : YproxyWriter Pipe) × (y'.under
          ≡ record { content = y.under.content ++ concat cs; closed = false })
        × (upload_loop
              (new_yproxy_writer empty_buffer lim (pipe closed_pipe))
              fuel
              (chunk_packets cs ++ t)
              y
            ≡ (stop_reason t, (read_packet t).1, y'))
  upload_loop-chunk_packets lim cs t zero y h p stops live few = absurd (omega arith)
  upload_loop-chunk_packets lim [] t (suc fuel) y h p stops live few = (
    y,
    rw (live, append-nil y.under.content) refl,
    upload_loop-Stops (new_yproxy_writer empty_buffer lim (pipe closed_pipe)) t fuel y stops,
  )
  upload_loop-chunk_packets lim (c ∷ cs) t (suc fuel) y h p stops live few =
      let ww = new_yproxy_writer empty_buffer lim (pipe closed_pipe) in
      let taken = write-chunk lim c y h.0.0 p.0 live in
      let (y', content, rest) =
        upload_loop-chunk_packets lim cs t fuel (written c y) h.1 p.1 stops live (omega arith) in
      (
        y',
        content
            ∙ ap (λ (b : Bytes). record { content = b; closed = false })
                (append_assoc y.under.content c (concat cs)),
        ap (λ (b : Bytes). upload_loop ww (suc fuel) b y)
              (append_assoc (chunk_packet c) (chunk_packets cs) t)
            ∙ upload_loop-chunk ww c (chunk_packets cs ++ t) fuel y h.0
                (ap (λ (r : (ℕ × Option E) × YproxyWriter Pipe). r.0) taken)
            ∙ ap
                (λ (r : (ℕ × Option E) × YproxyWriter Pipe).
                  upload_loop ww fuel (chunk_packets cs ++ t) r.1)
                taken
            ∙ rest,
      )

stop_reason-ne-crashed : {E : Type 0} (t : Bytes) → Stops t → stop_reason {E = E} t ≢ crashed
unfolding stop_reason
stop_reason-ne-crashed t h = ground (arith, h)

module _ {S E : Type 0} (put_file_to_dest : PutFileToDest S E) (write : Bytes → Option E) where
  put_end-stored :
      (req : PutRequest) (u : Ended E) (conn : Bytes) (y : YproxyWriter Pipe) (s s' : S)
      → u ≢ crashed
      → put_file_to_dest req.name y.under req.settings s ≡ (stored, s')
      → put_end put_file_to_dest write req (some u, conn, y) s ≡ (reply write req.reply_kv, s')
  unfolding put_end put_result
  put_end-stored req done conn y s s' h puts = ap (put_result write req.reply_kv) puts
  put_end-stored req (read_failed e) conn y s s' h puts = ap (put_result write req.reply_kv) puts
  put_end-stored req (foreign tp) conn y s s' h puts = ap (put_result write req.reply_kv) puts
  put_end-stored req (write_failed e) conn y s s' h puts = ap (put_result write req.reply_kv) puts
  put_end-stored req unfull_write conn y s s' h puts = ap (put_result write req.reply_kv) puts
  put_end-stored req crashed conn y s s' h puts = absurd (h refl)
  put_end-stored req out_of_fuel conn y s s' h puts = ap (put_result write req.reply_kv) puts

pub close-under :
    {E : Type 0} (empty_buffer closed_pipe : E) (lim : Option (Limiter E)) (y : YproxyWriter Pipe)
    → ((new_yproxy_writer empty_buffer lim (pipe closed_pipe)).close y).1.under
      ≡ record { content = y.under.content; closed = true }
unfolding new_yproxy_writer counted new_limited pipe
close-under empty_buffer closed_pipe none y = refl
close-under empty_buffer closed_pipe (some lim) y = refl

module _ {S V E : Type 0} (put_file_to_dest : PutFileToDest S E) (empty_buffer closed_pipe : E)
    (lim : Option (Limiter E)) (write : Bytes → Option E) where
  -- Without encryption, the storage is given the chunks and an end of the stream, however the
  -- upload ended; if it stores them, then the reply is written.
  pub process_put_extended-chunk_packets :
      (req : PutRequest) (cr : Option (Crypter (YproxyWriter Pipe) V E)) (cs : List Bytes)
      (t : Bytes) (s s' : S)
      → req.encrypt ≡ false
      → All Sendable cs
      → All (Passes lim) cs
      → Stops t
      → put_file_to_dest req.name (record { content = concat cs; closed = true }) req.settings s
        ≡ (stored, s')
      → process_put_extended put_file_to_dest empty_buffer closed_pipe lim write req cr
          (chunk_packets cs ++ t)
          s
        ≡ (reply write req.reply_kv, s')
  unfolding process_put_extended upload
  process_put_extended-chunk_packets req cr cs t s s' plain h p stops puts =
      let ww = new_yproxy_writer empty_buffer lim (pipe closed_pipe) in
      let conn = chunk_packets cs ++ t in
      let (y', content, loop) =
        upload_loop-chunk_packets empty_buffer closed_pipe lim cs t (suc (length conn)) opened h p
          stops refl (omega (arith, length-append (chunk_packets cs) t, length-chunk_packets cs)) in
      let given : (ww.close y').1.under ≡ record { content = concat cs; closed = true } =
        close-under empty_buffer closed_pipe lim y'
        ∙ ap (λ (p : Pipe). record { content = p.content; closed = true }) content in
      ap
        (λ (b : Bool).
          put_end put_file_to_dest write req (upload ww (suc (length conn)) b cr conn opened) s)
        plain
      ∙ ap
          (λ (r : Ended E × Bytes × YproxyWriter Pipe).
            put_end put_file_to_dest write req (some r.0, r.1, (ww.close r.2).1) s)
          loop
      ∙ put_end-stored put_file_to_dest write req (stop_reason t) (read_packet t).1 (ww.close y').1
          s s' (stop_reason-ne-crashed t stops)
          (ap (λ (p : Pipe). put_file_to_dest req.name p req.settings s) given ∙ puts)

-- The client prints the key version 1 of a reply.
read_answer-put_reply : read_answer (put_reply true) ≡ key_version 1
unfolding put_reply read_answer read_packet PutComplete.encode PutComplete.payload
    PutComplete.decode frame put_u64 u64 slice encode_ready_for_query ready_for_query_payload
read_answer-put_reply = refl

reply-replied :
    {E : Type 0} (write : Bytes → Option E)
    → ((b : Bytes) → write b ≡ none)
    → reply write true ≡ replied (put_reply true)
unfolding reply ready_reply unless_failed
reply-replied {E = E} write taken =
    ap (λ (o : Option E). unless_failed write o (ready_reply write true))
      (taken (PutComplete.encode (record { key_version = 1 })))
    ∙ ap (λ (o : Option E). unless_failed write o (replied (put_reply true)))
        (taken encode_ready_for_query)

pub encode_copy_done-Stops : (rest : Bytes) → Stops (encode_copy_done ++ rest)
unfolding encode_copy_done copy_done_payload
encode_copy_done-Stops rest =
    rw (Stops, read_packet-frame message_type_copy_done (0 ∷ 0 ∷ 0 ∷ []) rest (omega arith)) refl

module _ {S V E : Type 0} (put_file_to_dest : PutFileToDest S E) (empty_buffer closed_pipe : E)
    (lim : Option (Limiter E)) (write : Bytes → Option E) where
  -- What the client reads from its input becomes the object: it sends its chunks, the storage is
  -- given their bytes in order and the end of the stream, and where it stores them the client
  -- reads key version 1, if the upload is not encrypted, each chunk has a byte and fits into a
  -- packet, the rate limiter, if any, takes it in one piece, and the client takes the reply.
  pub send_input-process_put_extended :
      (req : PutRequest) (cr : Option (Crypter (YproxyWriter Pipe) V E)) (cs : List Bytes)
      (s s' : S)
      → req.encrypt ≡ false
      → req.reply_kv ≡ true
      → All Sendable cs
      → All (Passes lim) cs
      → ((b : Bytes) → write b ≡ none)
      → put_file_to_dest req.name (record { content = concat cs; closed = true }) req.settings s
        ≡ (stored, s')
      → (sent : Bytes) × (send_input cs ≡ some sent)
        × (process_put_extended put_file_to_dest empty_buffer closed_pipe lim write req cr sent s
            ≡ (replied (put_reply true), s'))
        × (read_answer (put_reply true) ≡ key_version 1)
  unfolding send_input
  send_input-process_put_extended req cr cs s s' plain kv h p taken puts =
      let stops : Stops encode_copy_done =
        subst Stops (append-nil encode_copy_done) (encode_copy_done-Stops []) in
      (
        chunk_packets cs ++ encode_copy_done,
        rw (send_chunks_packets cs h) refl,
        process_put_extended-chunk_packets put_file_to_dest empty_buffer closed_pipe lim write req
              cr cs encode_copy_done s s' plain h p stops puts
            ∙ ap (λ (b : Bool). (reply write b, s')) kv
            ∙ ap (λ (o : Outcome E). (o, s')) (reply-replied write taken),
        read_answer-put_reply,
      )
