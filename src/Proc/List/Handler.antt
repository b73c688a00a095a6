-- ===== src/Proc/List/Handler.antt =====
-- ProcessListExtended of pkg/proc/interaction.go, and what the client reads of it.
use yproxy.Base.{
  ℕ, zero, suc, ◌+◌, ◌≤◌, ◌<◌, ◌≡◌, refl, sym, ap, ◌∙◌, Option, none, some, List, [], ◌∷◌, ◌++◌,
  take, drop, map, length, append_assoc, append-nil, length-append, arith,
}
use yproxy.Bytes.{Bytes, ascii, put_u64, length-put_u64}
use yproxy.Io.Packet as Packet
use yproxy.Io.Packet.{read_packet, read_packet-frame}
use yproxy.Message.Kind.{message_type_error}
use yproxy.Message.Error as ErrorMessage
use yproxy.Message.ObjectMeta as ObjectMeta
use yproxy.Message.ObjectMeta.{ObjectInfo, ObjectsSendable, sent}
use yproxy.Message.CopyDone.{encode_ready_for_query}
use yproxy.Proc.Effect.{M, Result, ok, err}
use yproxy.Proc.Garbage.Mgr.{Error}
use yproxy.Proc.Reply.{reply_error, ready, failed_to_upload}
use yproxy.Proc.Reply.Ready.{takes}
use yproxy.Proc.List.{
  Listing, listed, incorrect_type, chunk_size, write_chunks, list_reply, read_listing,
}
use yproxy.Proc.List.RoundTrip.{ShortPaths, read_listing-list_reply}

module _ {C : Type 0} (error_text : Error → Bytes) (write : Bytes → C → Option Error × C) where
  -- The loop over the chunks of `k` objects, each of which takes one unit of fuel, and
  -- ReadyForQuery. If a chunk cannot be written, the handler returns nil.
  unfoldable pub write_list : ℕ → ℕ → List ObjectInfo → C → Result Error Unit × C
  write_list k zero objects c = ready error_text write c
  write_list k (suc fuel) [] c = ready error_text write c
  write_list k (suc fuel) (o ∷ objects) c =
      let chunk = ObjectMeta.encode (record { content = take k (o ∷ objects) }) in
      let rest = write_list k fuel (drop k (o ∷ objects)) (write chunk c).1 in
      elim (write chunk c).0 [
        | none ↦ rest
        | some e ↦ (ok tt, reply_error error_text write e failed_to_upload (write chunk c).1)
      ]

  -- The message of an ErrorMessage of a listing that failed
  abbrev pub could_not_list : Error → ErrorMessage.ErrorMessage
  could_not_list e = record {
    error = ascii "could not list objects: " ++ error_text e;
    message = ascii "failed to complete request";
  }

  list_written : {W : Type 0} → Result Error (List ObjectInfo) × W → C → Result Error Unit × C × W
  unfolding write_list
  list_written (err e, w) c = (err e, (write (ErrorMessage.encode (could_not_list e)) c).1, w)
  list_written (ok objects, w) c =
      let (result, c') = write_list chunk_size (length objects) objects c in (result, c', w)

  unfoldable pub process_list_extended :
      {W : Type 0} → M W Error (List ObjectInfo) → C → W → Result Error Unit × C × W
  unfolding list_written
  process_list_extended list_path c w = list_written (list_path w) c

read_packet-error :
    (m : ErrorMessage.ErrorMessage)
    → length m.error + length m.message ≤ 1049000
    → read_packet (ErrorMessage.encode m)
      ≡ (Packet.ok (message_type_error, ErrorMessage.payload m), [])
unfolding ErrorMessage.encode ErrorMessage.payload
read_packet-error m short =
    let text_length = put_u64 (length m.error) in
    let message_length = put_u64 (length m.message) in
    let behind = message_length ++ m.message in
    let all = length-append text_length (m.error ++ behind) in
    let error_on = length-append m.error behind in
    let message_on = length-append message_length m.message in
    let eight = length-put_u64 (length m.error) in
    let eight_more = length-put_u64 (length m.message) in
    ap read_packet (sym (append-nil (ErrorMessage.encode m)))
    ∙ read_packet-frame message_type_error (0 ∷ 0 ∷ 0 ∷ (text_length ++ (m.error ++ behind))) []
        (omega arith)

read_listing-error :
    (fuel : ℕ) (conn body rest : Bytes)
    → read_packet conn ≡ (Packet.ok (message_type_error, body), rest)
    → read_listing (suc fuel) conn [] ≡ incorrect_type message_type_error
unfolding read_listing
read_listing-error fuel conn body rest h = rw (read_listing, h) refl

module _ (error_text : Error → Bytes) where
  write_list-takes :
      (k fuel : ℕ) (objects : List ObjectInfo) (c : Bytes)
      → write_list error_text takes k fuel objects c
        ≡ (ok tt, c ++ (write_chunks k fuel objects ++ encode_ready_for_query))
  unfolding write_list write_chunks ready
  write_list-takes k zero objects c = refl
  write_list-takes k (suc fuel) [] c = refl
  write_list-takes k (suc fuel) (o ∷ objects) c =
      let chunk = ObjectMeta.encode (record { content = take k (o ∷ objects) }) in
      let later = write_chunks k fuel (drop k (o ∷ objects)) in
      write_list-takes k fuel (drop k (o ∷ objects)) (c ++ chunk)
      ∙ ap (λ b. (ok tt, b))
          (append_assoc c chunk (later ++ encode_ready_for_query)
            ∙ ap (λ b. c ++ b) (sym (append_assoc chunk later encode_ready_for_query)))

  -- What the handler returns and the client lists, by what the storage answered
  abbrev pub Told : Result Error (List ObjectInfo) → Result Error Unit → Listing → Type 0
  Told (ok objects) returned listing = (returned ≡ ok tt) × (listing ≡ listed (map sent objects))
  Told (err e) returned listing = (returned ≡ err e) × (listing ≡ incorrect_type message_type_error)

  -- The answer fits: the objects can be sent, or the text of the error has at most a million bytes.
  abbrev pub Fits : ℕ → Result Error (List ObjectInfo) → Type 0
  Fits fuel (ok objects) = ObjectsSendable objects × ShortPaths objects × (length objects < fuel)
  Fits fuel (err e) = (length (error_text e) ≤ 1000000) × (0 < fuel)

  list_written-Told :
      {W : Type 0} (fuel : ℕ) (answer : Result Error (List ObjectInfo) × W)
      → Fits fuel answer.0
      → Told answer.0
          (list_written error_text takes answer []).0
          (read_listing fuel (list_written error_text takes answer []).1 [])
  unfolding list_written list_reply
  list_written-Told fuel (ok objects, w) (sendable, short, enough) =
      let whole = write_list-takes chunk_size (length objects) objects [] in
      (
        ap (λ r. r.0) whole,
        ap (λ r. read_listing fuel r.1 []) whole
            ∙ ap (λ b. read_listing fuel b []) (sym (append-nil (list_reply objects)))
            ∙ read_listing-list_reply objects [] fuel sendable short enough,
      )
  list_written-Told zero (err e, w) (short, enough) = absurd (omega arith)
  list_written-Told (suc fuel) (err e, w) (short, enough) = (
    refl,
    read_listing-error fuel (ErrorMessage.encode (could_not_list error_text takes e)) _ []
        (read_packet-error (could_not_list error_text takes e) (omega arith)),
  )

  -- The client's loop over the answer of ProcessListExtended lists the objects that the storage
  -- listed, in order and without their modification times, or stops at the type of an error
  -- message where the listing failed, and the handler returns nil or this error, if the client
  -- takes what it is sent, the paths have no NUL and at most 1024 bytes, the sizes are 64-bit
  -- patterns, the text of the error has at most a million bytes, and the loop has more rounds than
  -- there are objects.
  pub process_list_extended-read_listing :
      {W : Type 0} (list_path : M W Error (List ObjectInfo)) (fuel : ℕ) (w : W)
      → Fits fuel (list_path w).0
      → Told
          (list_path w).0
          (process_list_extended error_text takes list_path [] w).0
          (read_listing fuel (process_list_extended error_text takes list_path [] w).1 [])
  unfolding process_list_extended
  process_list_extended-read_listing list_path fuel w fits =
      list_written-Told fuel (list_path w) fits
