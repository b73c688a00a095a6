-- ===== src/Proc/Put/Broken.antt =====
-- Uploads that do not end with CopyDone, in ProcessPutExtended of pkg/proc/interaction.go.
use yproxy.Base.{
  ℕ, suc, ◌<◌, min, ◌≡◌, ◌≢◌, refl, ap, subst, ◌∙◌, Bool, true, false, Option, none, some, List,
  ◌++◌, take, length, length-take, All, arith, ◌==◌, inl, inr, Option-cases, [], append-nil,
}
use yproxy.Bytes.{Bytes}
use yproxy.Message.CopyDone.{encode_copy_done}
use yproxy.Io.Packet.{ReadError, err, read_packet}
use yproxy.Yio.Writer.{WriteCloser, Limiter, YproxyWriter, counted, new_limited, new_yproxy_writer}
use yproxy.Yio.Writer.Pipe.{Pipe, pipe, opened}
use yproxy.Proc.Put.{
  Ended, out_of_fuel, Crypter, upload, PutFileToDest, stored, waits, hangs, reply, PutRequest,
  process_put_extended, put_end, put_result,
}
use yproxy.Proc.Put.Upload.{
  Sendable, chunk_packet, chunk_packets, Stops, upload_loop-unfull, upload_loop-ne-out_of_fuel,
}
use yproxy.Proc.Put.Stored.{
  Passes, concat, encode_copy_done-Stops, written, close-under, process_put_extended-chunk_packets,
}

unfull-write :
    {E : Type 0} (empty_buffer closed_pipe : E) (lim : Limiter E) (c : Bytes)
    → lim.burst < length c
    → (new_yproxy_writer empty_buffer (some lim) (pipe closed_pipe)).write c opened
      ≡ ((lim.burst, none), written (take lim.burst c) opened)
unfolding new_yproxy_writer counted new_limited pipe
unfull-write empty_buffer closed_pipe lim c h =
    let some_bytes : (length c == 0) ≡ false = ground arith in
    let cut : min lim.burst (length c) ≡ lim.burst = omega arith in
    rw (some_bytes, cut, length-take lim.burst c (omega arith)) refl

module _ {S V E : Type 0} (put_file_to_dest : PutFileToDest S E) (empty_buffer closed_pipe : E)
    (lim : Option (Limiter E)) (write : Bytes → Option E) where
  -- A client that goes away after some chunks, inside a packet or between two, has its object cut
  -- off there and stored as if it were whole: the handler ends as it does after CopyDone, by
  -- writing the reply, which may fail, if the upload is not encrypted, the chunks before the cut
  -- pass, and the storage stores what it is given.
  pub process_put_extended_cut :
      (req : PutRequest) (cr : Option (Crypter (YproxyWriter Pipe) V E)) (cs : List Bytes)
      (cut : Bytes) (e : ReadError) (s s' : S)
      → req.encrypt ≡ false
      → All Sendable cs
      → All (Passes lim) cs
      → (read_packet cut).0 ≡ err e
      → put_file_to_dest req.name (record { content = concat cs; closed = true }) req.settings s
        ≡ (stored, s')
      → process_put_extended put_file_to_dest empty_buffer closed_pipe lim write req cr
            (chunk_packets cs ++ cut)
            s
          ≡ (reply write req.reply_kv, s')
        × (process_put_extended put_file_to_dest empty_buffer closed_pipe lim write req cr
              (chunk_packets cs ++ encode_copy_done)
              s
            ≡ (reply write req.reply_kv, s'))
  process_put_extended_cut req cr cs cut e s s' plain h p gone puts = (
    process_put_extended-chunk_packets put_file_to_dest empty_buffer closed_pipe lim write req cr cs
        cut s s' plain h p (rw (gone, Stops) tt) puts,
    process_put_extended-chunk_packets put_file_to_dest empty_buffer closed_pipe lim write req cr cs
        encode_copy_done s s' plain h p
        (subst Stops (append-nil encode_copy_done) (encode_copy_done-Stops [])) puts,
  )

module _ {S E : Type 0} (put_file_to_dest : PutFileToDest S E) (empty_buffer closed_pipe : E)
    (lim : Option (Limiter E)) (write : Bytes → Option E) where
  -- A client that asks for encryption where the server has no crypter is never answered: the
  -- goroutine leaves the pipe open, and a storage that waits for the end of its stream waits
  -- for ever.
  pub process_put_extended-no_crypter :
      (V : Type 0) (req : PutRequest) (conn : Bytes) (s : S)
      → req.encrypt ≡ true
      → ((name : Bytes) (p : Pipe) (s : S)
          → p.closed ≡ false
          → put_file_to_dest name p req.settings s ≡ (waits, s))
      → process_put_extended {V = V} put_file_to_dest empty_buffer closed_pipe lim write req none
          conn s
        ≡ (hangs, s)
  unfolding process_put_extended upload put_end put_result
  process_put_extended-no_crypter V req conn s encrypts blocks =
      let open_end = blocks req.name opened.under s refl in
      ap
        (λ (b : Bool).
          put_end put_file_to_dest write req
            (upload {V = V} (new_yproxy_writer empty_buffer lim (pipe closed_pipe))
              (suc (length conn)) b none conn opened)
            s)
        encrypts
      ∙ ap (put_result write req.reply_kv) open_end

module _ {S V E : Type 0} (put_file_to_dest : PutFileToDest S E) (empty_buffer closed_pipe : E)
    (write : Bytes → Option E) where
  -- A rate limiter whose burst is below the length of the first chunk has the object cut off at the
  -- burst, and stored as if it were whole, if the upload is not encrypted.
  pub process_put_extended_burst :
      (req : PutRequest) (cr : Option (Crypter (YproxyWriter Pipe) V E)) (lim : Limiter E)
      (c later : Bytes) (s s' : S)
      → req.encrypt ≡ false
      → Sendable c
      → lim.burst < length c
      → put_file_to_dest req.name
          (record { content = take lim.burst c; closed = true })
          req.settings
          s
        ≡ (stored, s')
      → process_put_extended put_file_to_dest empty_buffer closed_pipe
          (some lim)
          write
          req
          cr
          (chunk_packet c ++ later)
          s
        ≡ (reply write req.reply_kv, s')
  unfolding process_put_extended upload put_end put_result
  process_put_extended_burst req cr lim c later s s' plain h long puts =
      let ww = new_yproxy_writer empty_buffer (some lim) (pipe closed_pipe) in
      let conn = chunk_packet c ++ later in
      let unfull = unfull-write empty_buffer closed_pipe lim c long in
      let loop =
        upload_loop-unfull ww c later (length conn) lim.burst opened h (ground arith)
          (ap (λ (r : (ℕ × Option E) × YproxyWriter Pipe). r.0) unfull) in
      let given : (ww.close (ww.write c opened).1).1.under
          ≡ record { content = take lim.burst c; closed = true } =
        close-under empty_buffer closed_pipe (some lim) (ww.write c opened).1
        ∙ ap
            (λ (r : (ℕ × Option E) × YproxyWriter Pipe). record {
              content = r.1.under.content;
              closed = true;
            })
            unfull in
      ap
        (λ (b : Bool).
          put_end put_file_to_dest write req (upload ww (suc (length conn)) b cr conn opened) s)
        plain
      ∙ ap
          (λ (r : Ended E × Bytes × YproxyWriter Pipe).
            put_end put_file_to_dest write req (some r.0, r.1, (ww.close r.2).1) s)
          loop
      ∙ ap (put_result write req.reply_kv)
          (ap (λ (p : Pipe). put_file_to_dest req.name p req.settings s) given ∙ puts)

-- The goroutine's loop ends on every connection and over every writer, before its fuel does.
pub upload-ne-out_of_fuel :
    {W V E : Type 0} (w : WriteCloser W E) (encrypt : Bool) (cr : Option (Crypter W V E))
    (conn : Bytes) (y : W)
    → (upload w (suc (length conn)) encrypt cr conn y).0 ≢ some out_of_fuel
unfolding upload
upload-ne-out_of_fuel w false cr conn y =
    λ e. upload_loop-ne-out_of_fuel w (suc (length conn)) conn y (omega arith) (cc e)
upload-ne-out_of_fuel w true none conn y = λ e. cc
upload-ne-out_of_fuel w true (some c) conn y = elim (Option-cases (c.start y)) [
  | inl refused ↦ rw (upload, refused) (λ e. cc)
  | inr (v, started) ↦
      rw (upload, started)
        (λ e. upload_loop-ne-out_of_fuel c.writer (suc (length conn)) conn v (omega arith) (cc e))
]
