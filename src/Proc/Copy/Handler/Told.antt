-- ===== src/Proc/Copy/Handler/Told.antt =====
-- What a client that is told that its copy is complete may conclude; ProcessCopyExtended of
-- pkg/proc/interaction.go.
use yproxy.Base.{true, false, ◌≡◌, refl, sym, subst, inl, inr, Option, none, List, [], ◌∷◌, arith}
use yproxy.Bytes.{Bytes, ascii}
use yproxy.Message.Kind.{message_type_copy_complete, message_type_error}
use yproxy.Message.ObjectMeta.{ObjectInfo}
use yproxy.Proc.Conn.{CopyArgs}
use yproxy.Proc.Effect.{Result, ok}
use yproxy.Proc.Garbage.Mgr.{Error, text}
use yproxy.Proc.Reply.{reply_error}
use yproxy.Proc.Reply.Ready.{takes, BeginsWith, reply_error-BeginsWith}
use yproxy.Proc.Copy.{Lists, list_files_to_copy}
use yproxy.Proc.Copy.Workers.{Modes, Rounds}
use yproxy.Proc.Copy.Workers.Complete.{InPath, Copies, Rounds-done}
use yproxy.Proc.Copy.Handler.{
  CopyEnv, OldInstance, Prepared, stopped, dry_run, copying, CopyOutcome, returned, crashed,
  nil_crypter, prepare, stop, finish, conclude, configured, opened, listed, compare_keys,
  max_rounds, Handled, early, dry, ran,
}

module _ {W Cnf C : Type 0} (env : CopyEnv W Cnf) (error_text : Error → Bytes)
    (write : Bytes → C → Option Error × C) (req : CopyArgs) (c : C) (w : W) where
  -- What becomes of the handler from where it was prepared to be.
  abbrev Ran : Prepared W × W → CopyOutcome C → W → Type 0
  Ran (stopped s, w') out w'' = out ≡ stop error_text write s c
  Ran (dry_run, w') out w'' = out ≡ finish error_text write req c
  Ran (copying old modes objects, w') out w'' =
      (failed : List ObjectInfo) × Rounds old.services modes old.copy_storage_concurrency max_rounds
        objects none w' failed w''
      × (out ≡ conclude error_text write req failed c)

  pub Handled-Ran :
      (out : CopyOutcome C) (w' : W)
      → Handled env error_text write req c w out w'
      → Ran (prepare env req w) out w'
  Handled-Ran _ _ (early s w' e) =
      subst (λ (p : Prepared W × W). Ran p (stop error_text write s c) w') (sym e) refl
  Handled-Ran _ _ (dry w' e) =
      subst (λ (p : Prepared W × W). Ran p (finish error_text write req c) w') (sym e) refl
  Handled-Ran _ _ (ran old modes objects failed w' w'' e rounds) =
      subst (λ (p : Prepared W × W). Ran p (conclude error_text write req failed c) w'') (sym e)
        (failed, rounds, refl)

-- A server that has no crypter, since it has no path of a key or could not load the key, crashes
-- whenever a client confirms a copy, once the objects have been listed, however many these are.
pub process_copy_extended-crashed :
    {W Cnf C : Type 0} (env : CopyEnv W Cnf) (error_text : Error → Bytes)
    (write : Bytes → C → Option Error × C) (req : CopyArgs) (c : C) (w : W) (cnf : Cnf)
    (old : OldInstance W) (lists : Lists) (out : CopyOutcome C) (w1 w2 w' : W)
    → env.cmp_key ≡ none
    → req.confirm ≡ true
    → req.kek_decrypt ≡ false
    → req.server_side ≡ false
    → env.read_instance_config req.old_cfg_path w ≡ (ok cnf, w1)
    → env.new_storage cnf ≡ ok old
    → list_files_to_copy old.lister req.name req.port w1 ≡ (ok lists, w2)
    → Handled env error_text write req c w out w'
    → out ≡ crashed
unfolding prepare stop
process_copy_extended-crashed {W = W} env error_text write req c w cnf old lists out w1 w2 w'
      no_crypter confirm plain here configuration storage objects run =
    let reached : prepare env req w ≡ (stopped nil_crypter, w2) =
      rw
        (
          plain, here, configuration, configured, storage, opened, objects, listed, confirm,
          compare_keys, no_crypter,
        )
        refl in
    subst (λ (p : Prepared W × W). Ran env error_text write req c w p out w') reached
      (Handled-Ran env error_text write req c w out w' run)

module _ {W Cnf : Type 0} (env : CopyEnv W Cnf) (error_text : Error → Bytes) (req : CopyArgs) where
  conclude-BeginsWith :
      (failed : List ObjectInfo) (r : Result Error Unit) (sent : Bytes)
      → returned r sent ≡ conclude error_text takes req failed []
      → BeginsWith message_type_copy_complete sent
      → failed ≡ []
  unfolding conclude
  conclude-BeginsWith [] r sent h told = refl
  conclude-BeginsWith (o ∷ failed) r sent h told =
      let e : Error = text "failed to copy some files" in
      let same : sent ≡ reply_error error_text takes e (ascii "failed files") [] = cc in
      absurd (
        other (
          reply_error-BeginsWith error_text e (ascii "failed files") message_type_copy_complete
            (subst (BeginsWith message_type_copy_complete) same told)))
    where
      other : message_type_error ≡ message_type_copy_complete → ⊥
      other h = omega arith

  -- Where the semaphore has one permit, a client that takes what it is sent and reads CopyComplete
  -- knows that every object that the handler was prepared to copy has been copied.
  pub Handled-done :
      (q : Bytes) (Q : W → Type 0) (w w' w'' : W) (old : OldInstance W) (modes : Modes)
      (objects : List ObjectInfo) (r : Result Error Unit) (sent : Bytes)
      → prepare env req w ≡ (copying old modes objects, w')
      → old.copy_storage_concurrency ≡ 1
      → Copies old.services modes q Q
      → InPath q objects
      → Handled env error_text takes req [] w (returned r sent) w''
      → BeginsWith message_type_copy_complete sent
      → Q w''
  Handled-done q Q w w' w'' old modes objects r sent ready one copies here handled told =
      let (failed, rounds, out) =
        subst (λ (p : Prepared W × W). Ran env error_text takes req [] w p (returned r sent) w'')
          ready (Handled-Ran env error_text takes req [] w (returned r sent) w'' handled) in
      let none_failed = conclude-BeginsWith failed r sent out told in
      elim (Rounds-done old.services modes q Q copies max_rounds objects failed none w' w''
        (subst (λ n. Rounds old.services modes n max_rounds objects none w' failed w'') one rounds)
        (inl here)) [ inl left ↦ absurd (subst (InPath q) none_failed left) | inr done ↦ done ]
