-- ===== src/Commands/Copied.antt =====
-- The command copy of cmd/client/main.go, from its flags to the destination.
use yproxy.Base.{
  ℕ, ◌==◌, Bool-cases, Option-cases, inl, inr, ◌+◌, ◌≤◌, ◌≡◌, refl, ap, subst, ◌∙◌, true, List, [],
  length, append-nil, arith,
}
use yproxy.Bytes.{Bytes}
use yproxy.Io.Packet.{Read, ok, err, panic, read_packet, max_msg_len}
use yproxy.Message.Kind.{MessageType, message_type_copy_complete, message_type_error}
use yproxy.Message.ObjectMeta.{ObjectInfo}
use yproxy.Message.Error as ErrorMessage
use yproxy.Proc.Effect.{Result}
use yproxy.Proc.Garbage.Mgr.{Error}
use yproxy.Proc.Conn.{CopyArgs, call, proc_conn, process_copy_extended}
use yproxy.Proc.Conn.Requests.{encode, payload, IsSendable, proc_conn-encode}
use yproxy.Proc.Reply.Ready.{takes, BeginsWith}
use yproxy.Proc.Copy.Workers.{Modes}
use yproxy.Proc.Copy.Workers.Complete.{InPath, Copies}
use yproxy.Proc.Copy.Handler.{CopyEnv, OldInstance, copying, returned, prepare, Handled}
use yproxy.Proc.Copy.Handler.Told.{Handled-done}
use yproxy.Commands.{Flags, copy_request, copied, read_copied, copy_read, copy_ready}

-- The arguments that the handler gets.
abbrev pub args : Flags → Bytes → CopyArgs
args f name = record {
  name = name;
  old_cfg_path = f.old_cfg_path;
  port = f.segment_port;
  confirm = f.confirm;
  encrypt = f.encrypt;
  decrypt = f.decrypt;
  kek_decrypt = f.use_kek;
  server_side = f.ss_copy;
  reply_kv = true;
}

-- A connection that the copy handler serves, up to its end.
pub data Served {W Cnf : Type 0} (env : CopyEnv W Cnf) (error_text : Error → Bytes) (conn : Bytes)
    (w : W) : Bytes → W → Type 0 where
  served :
      (req : CopyArgs) (rest : Bytes) (r : Result Error Unit) (sent : Bytes) (w' : W)
      → proc_conn conn ≡ (call (process_copy_extended req), rest)
      → Handled env error_text takes req [] w (returned r sent) w'
      → Served env error_text conn w sent w'

read_copied-BeginsWith :
    (sent : Bytes) (version : ℕ)
    → read_copied sent ≡ copied version
    → BeginsWith message_type_copy_complete sent
unfolding read_copied copy_read copy_ready
read_copied-BeginsWith sent version h = from_read (read_packet sent) refl h
  where
    is_complete :
        (tp : MessageType) (body conn : Bytes)
        → copy_read (ok (tp, body), conn) ≡ copied version
        → tp ≡ message_type_copy_complete
    is_complete tp body conn h = elim (Bool-cases (tp == message_type_error)) [
      | inl e ↦ elim (Option-cases (ErrorMessage.decode ErrorMessage.empty body)) [
        | inl e' ↦ cc (rw (e, e') at h)
        | inr (m, e') ↦ cc (rw (e, e') at h)
      ]
      | inr e ↦ elim (Bool-cases (tp == message_type_copy_complete)) [
        | inl e' ↦ ground (arith, e')
        | inr e' ↦ cc (rw (e, e') at h)
      ]
    ]

    from_read :
        (r : Read (MessageType × Bytes) × Bytes)
        → read_packet sent ≡ r
        → copy_read r ≡ copied version
        → BeginsWith message_type_copy_complete sent
    from_read (ok (tp, body), conn) e h = (
      body,
      conn,
      e ∙ ap (λ (t : MessageType). (ok (t, body), conn)) (is_complete tp body conn h),
    )
    from_read (err x, conn) e h = cc
    from_read (panic, conn) e h = cc

-- `yproxy-client copy --confirm` that succeeds has copied every object that the server was prepared
-- to copy, where the semaphore has one permit, the request is sendable and no longer than the
-- server accepts, and the client takes what it is sent: `Q` holds, which a copy of the object's
-- path brings about if it succeeds, and that of another path does not undo.
pub copy-done :
    {W Cnf : Type 0} (env : CopyEnv W Cnf) (error_text : Error → Bytes) (f : Flags) (name q : Bytes)
    (Q : W → Type 0) (w w' w'' : W) (old : OldInstance W) (modes : Modes)
    (objects : List ObjectInfo) (sent : Bytes) (version : ℕ)
    → IsSendable (copy_request f name)
    → length (payload (copy_request f name)) + 8 ≤ max_msg_len
    → prepare env (args f name) w ≡ (copying old modes objects, w')
    → old.copy_storage_concurrency ≡ 1
    → Copies old.services modes q Q
    → InPath q objects
    → Served env error_text (encode (copy_request f name)) w sent w''
    → read_copied sent ≡ copied version
    → Q w''
copy-done {W} env error_text f name q Q w w' w'' old modes objects sent version sendable small ready
      one copies here run h =
    by_run sent w'' run (read_copied-BeginsWith sent version h)
  where
    by_run :
        (sent : Bytes) (w'' : W)
        → Served env error_text (encode (copy_request f name)) w sent w''
        → BeginsWith message_type_copy_complete sent
        → Q w''
    by_run _ _ (served req rest r sent w'' arrived handled) told =
        let sent_there =
          subst (λ (c : Bytes). proc_conn c ≡ (call (process_copy_extended (args f name)), []))
            (append-nil (encode (copy_request f name)))
            (proc_conn-encode (copy_request f name) [] sendable small) in
        let same : req ≡ args f name = cc in
        Handled-done env error_text req q Q w w' w'' old modes objects r sent
          (ap (λ (a : CopyArgs). prepare env a w) same ∙ ready) one copies here handled told
