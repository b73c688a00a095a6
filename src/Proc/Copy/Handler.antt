-- ===== src/Proc/Copy/Handler.antt =====
-- ProcessCopyExtended of pkg/proc/interaction.go around the rounds of its goroutines.
pub mod Told
use yproxy.Base.{
  ℕ, ◌≡◌, Bool, true, false, not, ◌&&◌, ◌||◌, Option, none, some, List, [], ◌∷◌, if◌then◌else◌,
}
use yproxy.Bytes.{Bytes, ascii}
use yproxy.Message.ObjectMeta.{ObjectInfo}
use yproxy.Message.CopyComplete as CopyComplete
use yproxy.Proc.Conn.{CopyArgs}
use yproxy.Proc.Effect.{M, Result, ok, err}
use yproxy.Proc.Garbage.Mgr.{Error, text, wrap}
use yproxy.Proc.Reply.{failed_to_upload, reply_error, ready}
use yproxy.Proc.Copy.{CopyLister, Lists, list_files_to_copy}
use yproxy.Proc.Copy.Workers.{CopyServices, Modes, Rounds}

-- The instance that the objects are copied from: what ListFilesToCopy and the goroutines call, the
-- limit of the semaphore, and the path of its key.
pub record OldInstance (W : Type 0) : Type 0 where
  pub lister : CopyLister W Error
  pub services : CopyServices W Error
  pub copy_storage_concurrency : ℕ
  pub gpg_key_path : Bytes

pub record CopyEnv (W Cnf : Type 0) : Type 0 where
  pub read_instance_config : Bytes → M W Error Cnf
  pub new_storage : Cnf → Result Error (OldInstance W)
  -- CmpKey of the crypter; `none` is a nil crypter
  pub cmp_key : Option (Bytes → M W Error Bool)

-- How the handler stops before its rounds: with an error that ReplyError sends, and returned or not;
-- with one that the client is not told of; with a call of a method of nil.
pub data Stop : Type 0 where
  refused : Error → Bytes → Result Error Unit → Stop
  untold : Error → Stop
  nil_crypter : Stop

pub data Prepared (W : Type 0) : Type 0 where
  stopped : Stop → Prepared W
  dry_run : Prepared W
  copying : OldInstance W → Modes → List ObjectInfo → Prepared W

abbrev failed_request : Bytes
failed_request = ascii "failed to complete request"

module _ {W Cnf : Type 0} (env : CopyEnv W Cnf) where
  compared : CopyArgs → OldInstance W → List ObjectInfo → Result Error Bool × W → Prepared W × W
  compared req old objects (err e, w) = (stopped (untold e), w)
  compared req old objects (ok eq, w) =
      let modes : Modes = record {
        ss_copy = (not req.encrypt && not req.decrypt) || (req.encrypt && req.decrypt && eq);
        encrypt = req.encrypt;
        decrypt = req.decrypt;
      } in
      (copying old modes objects, w)

  pub compare_keys : CopyArgs → OldInstance W → List ObjectInfo → W → Prepared W × W
  unfolding compared
  compare_keys req old objects w = elim env.cmp_key [
    | none ↦ (stopped nil_crypter, w)
    | some cmp ↦ compared req old objects (cmp old.gpg_key_path w)
  ]

  pub listed : CopyArgs → OldInstance W → Result Error Lists × W → Prepared W × W
  unfolding compare_keys
  listed req old (err e, w) =
      (stopped (refused e (ascii "failed to list files to copy") (err e)), w)
  listed req old (ok lists, w) =
      if req.confirm then compare_keys req old lists.to_copy w else (dry_run, w)

  pub opened : CopyArgs → Result Error (OldInstance W) → W → Prepared W × W
  unfolding listed
  opened req (err e) w = (stopped (untold e), w)
  opened req (ok old) w = listed req old (list_files_to_copy old.lister req.name req.port w)

  pub configured : CopyArgs → Result Error Cnf × W → Prepared W × W
  unfolding opened
  configured req (err e, w) =
      (stopped (refused (wrap e "could not read old config") failed_request (ok tt)), w)
  configured req (ok cnf, w) = opened req (env.new_storage cnf) w

  -- The handler up to its rounds.
  unfoldable pub prepare : CopyArgs → W → Prepared W × W
  unfolding configured
  prepare req w =
      let kek : Error = text "KEK decryption in Copy not supported" in
      let server : Error = text "server-side Copy not supported" in
      if req.kek_decrypt
      then (stopped (refused kek failed_request (err kek)), w)
      else if req.server_side
      then (stopped (refused server failed_request (err server)), w)
      else configured req (env.read_instance_config req.old_cfg_path w)

-- What the handler returns, with the connection, or a panic.
pub data CopyOutcome (C : Type 0) : Type 0 where
  returned : Result Error Unit → C → CopyOutcome C
  crashed : CopyOutcome C

module _ {C : Type 0} (error_text : Error → Bytes) (write : Bytes → C → Option Error × C) where
  returns : Result Error Unit × C → CopyOutcome C
  returns (r, c) = returned r c

  completed : Option Error × C → CopyOutcome C
  unfolding returns
  completed (none, c) = returns (ready error_text write c)
  completed (some e, c) = returned (err e) (reply_error error_text write e failed_to_upload c)

  -- SingleKeyEncryption is 1.
  unfoldable pub finish : CopyArgs → C → CopyOutcome C
  unfolding completed returns
  finish req c =
      if req.reply_kv
      then completed (write (CopyComplete.encode (record { key_version = 1 })) c)
      else returns (ready error_text write c)

  unfoldable pub stop : Stop → C → CopyOutcome C
  stop (refused e msg r) c = returned r (reply_error error_text write e msg c)
  stop (untold e) c = returned (err e) c
  stop nil_crypter c = crashed

  -- `failed` are the objects that are left after the rounds.
  unfoldable pub conclude : CopyArgs → List ObjectInfo → C → CopyOutcome C
  unfolding finish
  conclude req [] c = finish req c
  conclude req (o ∷ failed) c =
      let e : Error = text "failed to copy some files" in
      returned (err e) (reply_error error_text write e (ascii "failed files") c)

abbrev pub max_rounds : ℕ
max_rounds = 10

-- A run of the handler: what its rounds do depends on how their goroutines run.
pub data Handled {W Cnf C : Type 0} (env : CopyEnv W Cnf) (error_text : Error → Bytes)
    (write : Bytes → C → Option Error × C) (req : CopyArgs) (c : C) (w : W)
    : CopyOutcome C → W → Type 0 where
  early :
      (s : Stop) (w' : W)
      → prepare env req w ≡ (stopped s, w')
      → Handled env error_text write req c w (stop error_text write s c) w'
  dry :
      (w' : W)
      → prepare env req w ≡ (dry_run, w')
      → Handled env error_text write req c w (finish error_text write req c) w'
  ran :
      (old : OldInstance W) (modes : Modes) (objects failed : List ObjectInfo) (w' w'' : W)
      → prepare env req w ≡ (copying old modes objects, w')
      → Rounds old.services modes old.copy_storage_concurrency max_rounds objects none w' failed w''
      → Handled env error_text write req c w (conclude error_text write req failed c) w''
