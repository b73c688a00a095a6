-- ===== src/Commands/Tests.antt =====
-- The commands on small servers.
use yproxy.Base.{◌≡◌, ◌≢◌, ◌↔◌, ℕ, Bool-cases, refl, true, List, [], inl, inr, arith}
use yproxy.Bytes.{Bytes, put_u64}
use yproxy.Io.Packet.{ReadError}
use yproxy.Message.Kind.{MessageType}
use yproxy.Message.Delete as Delete
use yproxy.Message.Untrashify as Untrashify
use yproxy.Message.ObjectMeta.{ObjectInfo}
use yproxy.Proc.Effect as Effect
use yproxy.Proc.Conn.{Call}
use yproxy.Proc.Conn.Requests.{IsSendable}
use yproxy.Proc.Garbage.Mgr.{Error, text}
use yproxy.Proc.Garbage.Paths.{dot_dot, empty_or_dot, last_part, reg_path_from_trash_path}
use yproxy.Proc.Garbage.Handlers.{
  handle_delete_file, handle_untrashify_file, for_buckets, restore_files,
}
use yproxy.Proc.Garbage.Restore.{restore}
use yproxy.Proc.Garbage.Tracked.{Brings}
use yproxy.Proc.Garbage.Bucket.{
  unused, dead, stored, bucket, mgr, At, remove_absent, remove_gone, rename_gone, rename_absent,
}
use yproxy.Proc.Copy.Workers.{}
use yproxy.Proc.Copy.Handler.{}
use yproxy.Commands.{Flags, default_flags, untrashify_message, succeeded, read_ready}
use yproxy.Commands.Deleted as Deleted
use yproxy.Commands.Deleted.{
  Deletion, chunk, untrash, request, handled, run-handled, delete_chunk-done, untrash-done,
}

abbrev error_text : Error → Bytes
error_text e = []

abbrev others : Call → List ObjectInfo → Bytes × List ObjectInfo
others c w = ([], w)

abbrev read_error : ReadError → Error
read_error e = text "read"

abbrev wrong_type : MessageType → Error
wrong_type tp = text "wrong"

abbrev confirmed : Flags
confirmed = record default_flags { confirm = true; segment_num = 3 }

-- A path that a file is moved back to begins with "s".
restored-ne-unused : (p : Bytes) (n : ℕ) → reg_path_from_trash_path p n ≢ unused
unfolding reg_path_from_trash_path
restored-ne-unused p n h = elim (Bool-cases (dot_dot (last_part p))) [
  | inl e ↦ cc (rw e at h)
  | inr e ↦ elim (Bool-cases (empty_or_dot (last_part p))) [
    | inl e' ↦ cc (rw (e, e') at h)
    | inr e' ↦ cc (rw (e, e') at h)
  ]
]

abbrev sent_to : Deletion → Bytes × List ObjectInfo
sent_to d = Deleted.run error_text mgr others read_error wrong_type confirmed d stored

unused-IsSendable : IsSendable (request confirmed (chunk unused))
unused-IsSendable = record {
  name_no_nul = omega arith;
  port_fits = omega arith;
  segnum_fits = omega arith;
}

run-handled_example :
    ((sent_to (chunk unused)).1
      ≡ (handled error_text mgr others read_error wrong_type confirmed (chunk unused) stored).1)
    × ((read_ready (sent_to (chunk unused)).0 ≡ succeeded) ↔ (
        (handled error_text mgr others read_error wrong_type confirmed (chunk unused) stored).0
        ≡ Effect.ok tt))
unfolding Delete.payload put_u64
run-handled_example =
    run-handled error_text mgr others read_error wrong_type confirmed (chunk unused) stored
      unused-IsSendable (omega arith)

delete_succeeded : read_ready (sent_to (chunk unused)).0 ≡ succeeded
unfolding Delete.payload put_u64 handle_delete_file for_buckets
delete_succeeded =
    (run-handled error_text mgr others read_error wrong_type confirmed (chunk unused) stored
        unused-IsSendable (omega arith)).1.1
      refl

delete_chunk-done_example : ¬ At unused (sent_to (chunk unused)).1
unfolding Delete.payload put_u64
delete_chunk-done_example =
    delete_chunk-done error_text mgr others read_error wrong_type bucket (λ w. At unused w → ⊥)
      confirmed unused stored
      (record {
        does = λ w a e. remove_gone unused w;
        lasts = λ c w h. remove_absent unused unused w h;
      })
      refl refl (inl refl) unused-IsSendable (omega arith) delete_succeeded

dead-restore : Brings dead (λ w. At unused w → ⊥) (restore mgr (untrashify_message confirmed []))
dead-restore = record {
  does = λ w a h. rename_gone unused _ w (restored-ne-unused unused 3);
  lasts = λ g w h. rename_absent unused g.path _ w (restored-ne-unused g.path 3) h;
}

nothing-IsSendable : IsSendable (request confirmed (untrash []))
nothing-IsSendable = (omega arith, omega arith)

untrash_succeeded : read_ready (sent_to (untrash [])).0 ≡ succeeded
unfolding Untrashify.payload put_u64 handle_untrashify_file restore_files
untrash_succeeded =
    (run-handled error_text mgr others read_error wrong_type confirmed (untrash []) stored
        nothing-IsSendable (omega arith)).1.1
      refl

untrash-done_example : ¬ At unused (sent_to (untrash [])).1
unfolding Untrashify.payload put_u64
untrash-done_example =
    untrash-done error_text mgr others read_error wrong_type dead (λ w. At unused w → ⊥) confirmed
      [] stored stored dead-restore refl refl (inr (inl refl)) nothing-IsSendable (omega arith)
      untrash_succeeded
