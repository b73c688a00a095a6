-- ===== src/Storage/S3/Removes.antt =====
-- What DeleteObject and MoveObject of pkg/storage/s3storage.go leave where it is. Both know an object
-- by its key, and different paths may have one key.
use Prim.Native.String.{String}
use yproxy.Base.{ℕ, ◌≢◌, Option, none, some, inl, inr, Bool-cases}
use yproxy.Bytes.{Bytes, eqb}
use yproxy.Proc.Effect.{Keeps, Keeps-bind}
use yproxy.Proc.Garbage.Mgr.{BasicGarbageMgr}
use yproxy.Proc.Garbage.Safety.{ReadsKeep}
use yproxy.Proc.Garbage.Live.{OnlyRemoves}
use yproxy.Proc.Obsolete.{Services}
use yproxy.Proc.Obsolete.Delete.{OnlyMoves}
use yproxy.Storage.Names.{join}
use yproxy.Storage.Settings.{StorageConfig, StorageCredentials, lookup, build_cred_map}
use yproxy.Storage.S3.{
  Service, or_raise, key_of, get_credentials, session_of, copy_with, ss_copy_object, delete_object,
  move_object, abort_multipart_upload,
}

or_raise-Keeps :
    {W A : Type 0} (P : W → Type 0) (t : String) (o : Option A) → Keeps P (or_raise t o)
or_raise-Keeps P t none w h = h
or_raise-Keeps P t (some a) w h = h

module _ {W Session Body : Type 0} (sv : Service W Session Body)
    (CopyTo Delete : Bytes → Bytes → Type 0) (P : W → Type 0) where
  -- Requests of the service keep `P`, copies and deletions if they are of such keys.
  pub record Stays : Type 0 where
    pub sessions : (cr : StorageCredentials) → Keeps P (sv.get_session cr)
    pub heads : (c j : Bytes) (s : Session) → Keeps P (sv.head_object s c j)
    pub copies :
        (c from to class : Bytes) (s : Session)
        → CopyTo c to
        → Keeps P (sv.copy_object s c from to class)
    pub deletes : (c j : Bytes) (s : Session) → Delete c j → Keeps P (sv.delete_object s c j)

  module _ (cnf : StorageConfig) (stays : Stays) where
    pub session_of-Keeps : (c : Bytes) → Keeps P (session_of sv cnf c)
    session_of-Keeps c =
        Keeps-bind P (get_credentials sv cnf c) sv.get_session
          (or_raise-Keeps P "no credentials configured for bucket" (lookup c (build_cred_map cnf)))
          (λ _ cr _. stays.sessions cr)

    copy_with-Keeps :
        (from to c d : Bytes) (s : Session) → CopyTo d to → Keeps P (copy_with sv cnf from to c d s)
    copy_with-Keeps from to c d s h =
        Keeps-bind P (sv.head_object s c from) (λ class. sv.copy_object s d (join c from) to class)
          (stays.heads c from s) (λ _ class _. stays.copies d (join c from) to class s h)

    pub ss_copy_object-Keeps :
        (from to prefix c d : Bytes)
        → CopyTo d (key_of cnf.storage_prefix to)
        → Keeps P (ss_copy_object sv cnf from to prefix c d)
    unfolding ss_copy_object
    ss_copy_object-Keeps from to prefix c d h =
        Keeps-bind P (session_of sv cnf d)
          (copy_with sv cnf (key_of prefix from) (key_of cnf.storage_prefix to) c d)
          (session_of-Keeps d)
          (λ _ s _. copy_with-Keeps (key_of prefix from) (key_of cnf.storage_prefix to) c d s h)

    pub delete_object-Keeps :
        (c p : Bytes) → Delete c (key_of cnf.storage_prefix p) → Keeps P (delete_object sv cnf c p)
    unfolding delete_object
    delete_object-Keeps c p h =
        Keeps-bind P (session_of sv cnf c) (λ s. sv.delete_object s c (key_of cnf.storage_prefix p))
          (session_of-Keeps c) (λ _ s _. stays.deletes c (key_of cnf.storage_prefix p) s h)

    pub move_object-Keeps :
        (c from to : Bytes)
        → CopyTo c (key_of cnf.storage_prefix to)
        → Delete c (key_of cnf.storage_prefix from)
        → Keeps P (move_object sv cnf c from to)
    unfolding move_object
    move_object-Keeps c from to h k w kept = elim (Bool-cases (eqb from to)) [
      | inl same ↦ rw same kept
      | inr other ↦ rw other (
          Keeps-bind P (ss_copy_object sv cnf from to cnf.storage_prefix c c)
            (λ _. delete_object sv cnf c from)
            (ss_copy_object-Keeps from to cnf.storage_prefix c c h)
            (λ _ _ _. delete_object-Keeps c from k) w kept)
    ]

-- The garbage manager over this storage has what it relies on, with the keys that the storage makes
-- of paths, if the service deletes nothing but the key that it is told to.
pub OnlyRemoves-delete_object :
    {W Session Body : Type 0} (sv : Service W Session Body) (cnf : StorageConfig)
    (dh : BasicGarbageMgr W) (Holds : Bytes → Bytes → W → Type 0)
    → ((b k : Bytes) → ReadsKeep dh (Holds b k))
    → ((b k : Bytes) → Stays sv (λ c j. Unit) (λ c j. j ≢ k) (Holds b k))
    → ((b k b' j u : Bytes) (s : Session) → Keeps (Holds b k) (sv.abort_upload s b' j u))
    → OnlyRemoves
        (record dh {
          storage = record dh.storage {
            delete_object = delete_object sv cnf;
            move_object = move_object sv cnf;
            abort_multipart_upload = abort_multipart_upload sv cnf;
          };
        })
        (key_of cnf.storage_prefix)
        (λ b p. Holds b (key_of cnf.storage_prefix p))
unfolding abort_multipart_upload
OnlyRemoves-delete_object sv cnf dh Holds reads stays aborts = record {
  reads = λ b p.
      let r = reads b (key_of cnf.storage_prefix p) in
      record {
        clock = r.clock;
        first_lsn = r.first_lsn;
        indexes = r.indexes;
        listing = r.listing;
        uploads = r.uploads;
      };
  aborts = λ b p b' j u.
      Keeps-bind (Holds b (key_of cnf.storage_prefix p)) (session_of sv cnf b')
        (λ s. sv.abort_upload s b' j u)
        (session_of-Keeps sv _ _ (Holds b (key_of cnf.storage_prefix p)) cnf
          (stays b (key_of cnf.storage_prefix p)) b')
        (λ _ s _. aborts b (key_of cnf.storage_prefix p) b' j u s);
  deletes = λ b p b' q other.
      delete_object-Keeps sv _ _ (Holds b (key_of cnf.storage_prefix p)) cnf
        (stays b (key_of cnf.storage_prefix p)) b' q other;
  moves = λ b p b' q to other.
      move_object-Keeps sv _ _ (Holds b (key_of cnf.storage_prefix p)) cnf
        (stays b (key_of cnf.storage_prefix p)) b' q to tt other;
}

-- So has ProcessDeleteObsolete, for an object at the key of a path.
pub OnlyMoves-move_object :
    {W Session Body Conn : Type 0} (sv : Service W Session Body) (cnf : StorageConfig)
    (services : Services W Conn) (P : W → Type 0) (p : Bytes)
    → Stays sv (λ c j. Unit) (λ c j. j ≢ key_of cnf.storage_prefix p) P
    → ((port : ℕ) → Keeps P (services.get_virtual_expire_indexes port))
    → ((seg : ℕ) → Keeps P (services.get_first_lsn seg))
    → ((port : ℕ) (db : Bytes) → Keeps P (services.get_connect_to_database port db))
    → ((conn : Conn) (path : Bytes) → Keeps P (services.delete_from_expire_index conn path))
    → OnlyMoves
        (record services { move_object = move_object sv cnf })
        (key_of cnf.storage_prefix)
        P
        p
OnlyMoves-move_object sv cnf services P p stays indexes first_lsn connects hints = record {
  indexes = indexes;
  first_lsn = first_lsn;
  connects = connects;
  hints = hints;
  moves = λ b q to other. move_object-Keeps sv _ _ P cnf stays b q to tt other;
}
