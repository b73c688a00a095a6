-- ===== src/Commands/Deleted.antt =====
-- The commands delete, deleteTrash and untrash of cmd/client/main.go, from their flags to the storage.
use yproxy.Base.{
  arith, ◌+◌, ◌≤◌, ◌≡◌, ◌↔◌, refl, sym, ap, subst, ◌∙◌, true, false, if◌then◌else◌, List, [],
  append-nil, length,
}
use yproxy.Bytes.{Bytes, put_u64, u64}
use yproxy.Io.Packet.{Read, ReadError, max_msg_len, read_packet, ok, err, panic}
use yproxy.Message.Frame.{frame}
use yproxy.Message.CopyDone.{encode_ready_for_query}
use yproxy.Message.Kind.{MessageType, message_type_ready_for_query}
use yproxy.Message.ObjectMeta.{ObjectInfo}
use yproxy.Proc.Effect as Effect
use yproxy.Proc.Effect.{Result}
use yproxy.Proc.Conn.{Call, call, proc_conn}
use yproxy.Proc.Conn.Requests.{Request, encode, call_of, payload, IsSendable, proc_conn-encode}
use yproxy.Proc.Garbage.Mgr.{BasicGarbageMgr, Error}
use yproxy.Proc.Garbage.Handlers.{
  handle_delete_garbage, handle_delete_file, handle_delete2_prefix, handle_untrashify_file,
}
use yproxy.Proc.Garbage.Everywhere.{InBuckets, BringsAt, handle_delete_file-done}
use yproxy.Proc.Garbage.Restore.{restore, handle_untrashify_file-done}
use yproxy.Proc.Garbage.Select.{In}
use yproxy.Proc.Garbage.Tracked.{Brings}
use yproxy.Proc.Reply.{failed_to_upload, ready}
use yproxy.Proc.Reply.Ready.{takes, IsReady}
use yproxy.Proc.Deletion.{
  failed_to_finish, no_vacuum, answered, process_delete_extended, process_delete2_extended,
  process_untrashify,
}
use yproxy.Proc.Deletion.Told.{answered-IsReady, answered-world}
use yproxy.Commands.{
  Flags, delete_message, delete_chunk_request, delete_trash_request, untrashify_message,
  untrashify_request, succeeded, read_ready, ready_read,
}
use yproxy.Commands.Server.{serve, serve_call, serve_outcome}

-- A command line, without the flags
pub data Deletion : Type 0 where
  chunk trash untrash : Bytes → Deletion

abbrev pub request : Flags → Deletion → Request
request f (chunk name) = delete_chunk_request f name
request f (trash prefix) = delete_trash_request f prefix
request f (untrash name) = untrashify_request f name

pub read_ready-IsReady : (sent : Bytes) → read_ready sent ≡ succeeded → IsReady sent
unfolding read_ready ready_read
read_ready-IsReady sent h = from_read (read_packet sent) refl h
  where
    from_read :
        (r : Read (MessageType × Bytes) × Bytes)
        → read_packet sent ≡ r
        → ready_read r.0 ≡ succeeded
        → IsReady sent
    from_read (ok (tp, body), conn) e h =
        let same : tp ≡ message_type_ready_for_query = ground (arith, h) in
        (body, conn, e ∙ ap (λ (t : MessageType). (ok (t, body), conn)) same)
    from_read (err x, conn) e h = cc
    from_read (panic, conn) e h = cc

module _ {W : Type 0} (error_text : Error → Bytes) (dh : BasicGarbageMgr W)
    (others : Call → W → Bytes × W) (read_error : ReadError → Error)
    (wrong_type : MessageType → Error) where
  -- What the garbage manager does for the command.
  abbrev pub handled : Flags → Deletion → W → Result Error Unit × W
  handled f (chunk name) w =
      if f.garbage
      then handle_delete_garbage dh (delete_message f name) w
      else handle_delete_file dh (delete_message f name) w
  handled f (trash prefix) w =
      handle_delete2_prefix dh
        (record { prefix = prefix; confirm = f.confirm; garbage = f.garbage }) w
  handled f (untrash name) w =
      handle_untrashify_file (record dh { cnf = no_vacuum }) (untrashify_message f name) w

  abbrev failure : Deletion → Bytes
  failure (untrash name) = failed_to_upload
  failure d = failed_to_finish

  abbrev pub run : Flags → Deletion → W → Bytes × W
  run f d w = serve error_text dh others read_error wrong_type (encode (request f d)) w

  told_and_done :
      (d : Deletion) (r : Result Error Unit × W)
      → ◌≡◌ {A = Bytes × W}
          (
            (answered error_text takes dh (failure d) r []).1,
            (answered error_text takes dh (failure d) r []).2,
          )
          ((answered error_text takes dh (failure d) r []).1, r.1)
  told_and_done d r =
      ap (λ (w : W). ((answered error_text takes dh (failure d) r []).1, w))
        (answered-world error_text dh (failure d) r [])

  serve_call-answered :
      (f : Flags) (d : Deletion) (w : W)
      → serve_call error_text dh others read_error wrong_type (call_of (request f d)) w
        ≡ ((answered error_text takes dh (failure d) (handled f d w) []).1, (handled f d w).1)
  unfolding serve_call process_delete_extended process_delete2_extended process_untrashify
  serve_call-answered f (chunk name) w = told_and_done (chunk name) (handled f (chunk name) w)
  serve_call-answered f (trash prefix) w = told_and_done (trash prefix) (handled f (trash prefix) w)
  serve_call-answered f (untrash name) w = told_and_done (untrash name) (handled f (untrash name) w)

  answered-read_ready :
      (d : Deletion) (r : Result Error Unit × W)
      → r.0 ≡ Effect.ok tt
      → read_ready (answered error_text takes dh (failure d) r []).1 ≡ succeeded
  unfolding answered ready read_ready read_packet encode_ready_for_query frame put_u64 u64
  answered-read_ready d (Effect.ok a, w) h = refl
  answered-read_ready d (Effect.err e, w) h = cc

  run-answered :
      (f : Flags) (d : Deletion) (w : W)
      → IsSendable (request f d)
      → length (payload (request f d)) + 8 ≤ max_msg_len
      → run f d w
        ≡ ((answered error_text takes dh (failure d) (handled f d w) []).1, (handled f d w).1)
  unfolding serve serve_outcome
  run-answered f d w sendable small =
      let arrived : proc_conn (encode (request f d)) ≡ (call (call_of (request f d)), []) =
        subst (λ (c : Bytes). proc_conn c ≡ (call (call_of (request f d)), []))
          (append-nil (encode (request f d))) (proc_conn-encode (request f d) [] sendable small) in
      rw arrived (serve_call-answered f d w)

  -- A deletion command, over the wire, is the call of the garbage manager: it leaves the storage as
  -- this call does, and succeeds exactly if the call returns no error, if its request is
  -- sendable and no longer than the server accepts, and the client takes what it is sent.
  pub run-handled :
      (f : Flags) (d : Deletion) (w : W)
      → IsSendable (request f d)
      → length (payload (request f d)) + 8 ≤ max_msg_len
      → ((run f d w).1 ≡ (handled f d w).1)
        × ((read_ready (run f d w).0 ≡ succeeded) ↔ ((handled f d w).0 ≡ Effect.ok tt))
  run-handled f d w sendable small =
      let same = run-answered f d w sendable small in
      let r = handled f d w in
      (
        ap (λ (p : Bytes × W). p.1) same,
        (
          λ h. answered-IsReady error_text dh (failure d) r (
              read_ready-IsReady (answered error_text takes dh (failure d) r []).1
                (ap (λ (p : Bytes × W). read_ready p.0) (sym same) ∙ h)),
          λ h. ap (λ (p : Bytes × W). read_ready p.0) same ∙ answered-read_ready d r h,
        ),
      )

  -- `yproxy-client delete --confirm` that succeeds has deleted the file in each of the storage's
  -- buckets: `Q` holds, which deleting it in that bucket brings about and deleting it in any
  -- bucket does not undo, if the request is sendable and no longer than the server accepts,
  -- and the client takes what it is sent.
  pub delete_chunk-done :
      (b : Bytes) (Q : W → Type 0) (f : Flags) (name : Bytes) (w : W)
      → BringsAt b Q (λ c. dh.storage.delete_object c name)
      → f.confirm ≡ true
      → f.garbage ≡ false
      → InBuckets b dh.storage.list_buckets
      → IsSendable (request f (chunk name))
      → length (payload (request f (chunk name))) + 8 ≤ max_msg_len
      → read_ready (run f (chunk name) w).0 ≡ succeeded
      → Q (run f (chunk name) w).1
  delete_chunk-done b Q f name w brings confirmed one here sendable small h =
      let (same, ends) = run-handled f (chunk name) w sendable small in
      let deleted : handled f (chunk name) w ≡ handle_delete_file dh (delete_message f name) w =
        rw one refl in
      subst Q (sym (same ∙ ap (λ (r : Result Error Unit × W). r.1) deleted)) (
        handle_delete_file-done dh b Q (delete_message f name) w tt brings confirmed here
          (ap (λ (r : Result Error Unit × W). r.0) (sym deleted) ∙ ends.0 h))

  -- `yproxy-client untrash --confirm` that succeeds has moved back each file that was listed under
  -- the name: `Q` holds, which the move of that file brings about and no other move undoes, if
  -- the request is sendable and no longer than the server accepts, and the client takes what it
  -- is sent.
  pub untrash-done :
      (o : ObjectInfo) (Q : W → Type 0) (f : Flags) (name : Bytes) (w : W) (files : List ObjectInfo)
      → Brings o Q (restore dh (untrashify_message f name))
      → f.confirm ≡ true
      → (dh.storage.list_path name w).0 ≡ Effect.ok files
      → In o files
      → IsSendable (request f (untrash name))
      → length (payload (request f (untrash name))) + 8 ≤ max_msg_len
      → read_ready (run f (untrash name) w).0 ≡ succeeded
      → Q (run f (untrash name) w).1
  untrash-done o Q f name w files brings confirmed listed here sendable small h =
      let (same, ends) = run-handled f (untrash name) w sendable small in
      subst Q (sym same) (
        handle_untrashify_file-done (record dh { cnf = no_vacuum }) o Q (untrashify_message f name)
          w files tt brings confirmed listed here (ends.0 h))
