-- ===== src/Proc/Deletion/Told.antt =====
-- What the client of a deletion is told, and what it may conclude from it; pkg/proc/interaction.go.
use yproxy.Base.{◌≡◌, refl, sym, ap, subst, ◌∙◌, true, false, List, [], arith}
use yproxy.Bytes.{Bytes}
use yproxy.Message.Kind.{message_type_error, message_type_ready_for_query}
use yproxy.Message.ObjectMeta.{ObjectInfo}
use yproxy.Message.Delete.{DeleteMessage}
use yproxy.Message.Untrashify.{UntrashifyMessage}
use yproxy.Proc.Effect as Effect
use yproxy.Proc.Effect.{Result, err}
use yproxy.Proc.Garbage.Mgr.{BasicGarbageMgr, Error}
use yproxy.Proc.Garbage.Handlers.{handle_delete_file, handle_untrashify_file}
use yproxy.Proc.Garbage.Everywhere.{InBuckets, BringsAt, handle_delete_file-done}
use yproxy.Proc.Garbage.Select.{In}
use yproxy.Proc.Garbage.Tracked.{Brings}
use yproxy.Proc.Garbage.Restore.{restore, handle_untrashify_file-done}
use yproxy.Proc.Reply.{failed_to_upload}
use yproxy.Proc.Reply.Ready.{takes, IsReady, reply_error-BeginsWith}
use yproxy.Proc.Deletion.{
  failed_to_finish, no_vacuum, answered, process_delete_extended, process_untrashify,
}

module _ {W : Type 0} (error_text : Error → Bytes) (dh : BasicGarbageMgr W) where
  -- A reply of an error is never taken for it.
  pub answered-IsReady :
      (failure : Bytes) (r : Result Error Unit × W)
      → IsReady (answered error_text takes dh failure r []).1
      → r.0 ≡ Effect.ok tt
  unfolding answered
  answered-IsReady failure (Effect.ok a, w) told = refl
  answered-IsReady failure (err e, w) (body, rest, told) = absurd (
      not_ready (
        reply_error-BeginsWith error_text e failure message_type_ready_for_query
          (body, rest, told)))
    where
      not_ready : message_type_error ≡ message_type_ready_for_query → ⊥
      not_ready h = omega arith

  pub answered-world :
      (failure : Bytes) (r : Result Error Unit × W) (c : Bytes)
      → (answered error_text takes dh failure r c).2 ≡ r.1
  unfolding answered
  answered-world failure (Effect.ok a, w) c = refl
  answered-world failure (err e, w) c = refl

  -- A client that confirmed the deletion of a file and reads ReadyForQuery knows that the file was
  -- deleted in each of the storage's buckets: `Q` holds, which deleting it in that bucket brings
  -- about and deleting it in any bucket does not undo, if the client takes what it is sent.
  pub process_delete_extended-done :
      (b : Bytes) (Q : W → Type 0) (msg : DeleteMessage) (w : W)
      → BringsAt b Q (λ c. dh.storage.delete_object c msg.name)
      → msg.confirm ≡ true
      → msg.garbage ≡ false
      → InBuckets b dh.storage.list_buckets
      → IsReady (process_delete_extended error_text takes dh msg [] w).1
      → Q (process_delete_extended error_text takes dh msg [] w).2
  unfolding process_delete_extended
  process_delete_extended-done b Q msg w brings confirmed chunk here told =
      let r = handle_delete_file dh msg w in
      let same : process_delete_extended error_text takes dh msg [] w
          ≡ answered error_text takes dh failed_to_finish r [] =
        rw chunk refl in
      let finished =
        answered-IsReady failed_to_finish r
          (subst (λ (p : Result Error Unit × Bytes × W). IsReady p.1) same told) in
      subst Q
        (sym (
          ap (λ (p : Result Error Unit × Bytes × W). p.2) same
          ∙ answered-world failed_to_finish r []))
        (handle_delete_file-done dh b Q msg w tt brings confirmed here finished)

  -- A client that confirmed an untrashify request and reads ReadyForQuery knows that each file
  -- that was listed under its name was moved back: `Q` holds, which the move of that file brings
  -- about and no other move undoes, if the client takes what it is sent.
  pub process_untrashify-done :
      (f : ObjectInfo) (Q : W → Type 0) (msg : UntrashifyMessage) (w : W) (files : List ObjectInfo)
      → Brings f Q (restore dh msg)
      → msg.confirm ≡ true
      → (dh.storage.list_path msg.name w).0 ≡ Effect.ok files
      → In f files
      → IsReady (process_untrashify error_text takes dh msg [] w).1
      → Q (process_untrashify error_text takes dh msg [] w).2
  unfolding process_untrashify
  process_untrashify-done f Q msg w files brings confirmed listed here told =
      let r = handle_untrashify_file (record dh { cnf = no_vacuum }) msg w in
      subst Q (sym (answered-world failed_to_upload r [])) (
        handle_untrashify_file-done (record dh { cnf = no_vacuum }) f Q msg w files tt brings
          confirmed listed here (answered-IsReady failed_to_upload r told))
