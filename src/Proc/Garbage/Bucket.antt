-- ===== src/Proc/Garbage/Bucket.antt =====
-- A storage of one bucket, which is the list of its objects, and a garbage manager over it.
use mathlib.Core.List.Permᴰ as Permᴰ
use yproxy.Base.{
  ◌≡◌, ◌≢◌, sym, subst, ◌∙◌, true, false, none, List, [], ◌∷◌, ◌⊎◌, inl, inr, Bool-cases,
  if◌then◌else◌,
}
use yproxy.Bytes.{Bytes, eqb, eqb-eq, eqb_refl}
use yproxy.Message.ObjectMeta.{ObjectInfo}
use yproxy.Message.Delete.{DeleteMessage}
use yproxy.Proc.Effect.{ok}
use yproxy.Proc.Garbage.Mgr.{BasicGarbageMgr, StorageInteractor, Indexes, pos}
use yproxy.Proc.Garbage.Paths.{}
use yproxy.Proc.Garbage.Rounds.{IsFair}
use yproxy.Proc.Garbage.Handlers.{}
use yproxy.Proc.Garbage.Batch.{}
use yproxy.Proc.Garbage.Safety.{ReadsKeep}
use yproxy.Proc.Garbage.Live.{OnlyRemoves}

abbrev pub remove : Bytes → List ObjectInfo → List ObjectInfo
remove p [] = []
remove p (o ∷ w) = let rest = remove p w in if eqb o.path p then rest else o ∷ rest

abbrev pub rename : Bytes → Bytes → List ObjectInfo → List ObjectInfo
rename p q [] = []
rename p q (o ∷ w) =
    let rest = rename p q w in if eqb o.path p then record o { path = q } ∷ rest else o ∷ rest

-- "a" is used by a table, "b" by none.
abbrev pub used : Bytes
used = 97 ∷ []

abbrev pub unused : Bytes
unused = 98 ∷ []

abbrev pub dead : ObjectInfo
dead = record { path = unused; size = 1; last_mod = 5 }

abbrev pub stored : List ObjectInfo
stored = record { path = used; size = 1; last_mod = 5 } ∷ dead ∷ []

abbrev pub bucket : Bytes
bucket = 1 ∷ []

abbrev pub indexes : Indexes
indexes = record { vi = λ p. eqb p used; ei = λ p. none }

abbrev pub store : StorageInteractor (List ObjectInfo)
store = record {
  list_buckets = bucket ∷ [];
  default_bucket = bucket;
  list_path = λ p w. (ok w, w);
  list_bucket_path = λ b p w. (ok w, w);
  list_failed_multipart_uploads = λ b w. (ok [], w);
  move_object = λ b p q w. (ok tt, rename p q w);
  delete_object = λ b p w. (ok tt, remove p w);
  abort_multipart_upload = λ b k u w. (ok tt, w);
}

abbrev pub mgr : BasicGarbageMgr (List ObjectInfo)
mgr = record {
  get_first_lsn = λ n w. (ok 0, w);
  get_virtual_expire_indexes = λ n w. (ok indexes, w);
  storage = store;
  cnf = record {
    check_backup = false;
    file_chunk_per_sec = pos 0;
    trash_retention_days = pos 7;
    trash_move_workers = pos 2;
    trash_delete_workers = pos 2;
    protection_window = pos 10;
  };
  clock = λ w. (100, w);
  schedule = λ w files. files;
}

abbrev pub request : DeleteMessage
request = record {
  name = [];
  port = 5432;
  segnum = 3;
  confirm = true;
  garbage = true;
  crazy_drop = true;
}

pub mgr-IsFair : IsFair mgr
mgr-IsFair w files = Permᴰ.refl files

-- An object is at the path.
abbrev pub At : Bytes → List ObjectInfo → Type 0
At p [] = ⊥
At p (o ∷ w) = (o.path ≡ p) ⊎ At p w

pub remove-At : (p q : Bytes) (w : List ObjectInfo) → q ≢ p → At p w → At p (remove q w)
remove-At p q [] h a = a
remove-At p q (o ∷ w) h (inl e) = elim (Bool-cases (eqb o.path q)) [
  | inl same ↦ absurd (h (sym (eqb-eq o.path q same) ∙ e))
  | inr other ↦ rw other (inl e)
]
remove-At p q (o ∷ w) h (inr a) = elim (Bool-cases (eqb o.path q)) [
  | inl same ↦ rw same (remove-At p q w h a)
  | inr other ↦ rw other (inr (remove-At p q w h a))
]

pub rename-At : (p q r : Bytes) (w : List ObjectInfo) → q ≢ p → At p w → At p (rename q r w)
rename-At p q r [] h a = a
rename-At p q r (o ∷ w) h (inl e) = elim (Bool-cases (eqb o.path q)) [
  | inl same ↦ absurd (h (sym (eqb-eq o.path q same) ∙ e))
  | inr other ↦ rw other (inl e)
]
rename-At p q r (o ∷ w) h (inr a) = elim (Bool-cases (eqb o.path q)) [
  | inl same ↦ rw same (inr (rename-At p q r w h a))
  | inr other ↦ rw other (inr (rename-At p q r w h a))
]

pub mgr_reads : (P : List ObjectInfo → Type 0) → ReadsKeep mgr P
mgr_reads P = record {
  clock = λ w p. p;
  first_lsn = λ n w p. p;
  indexes = λ n w p. p;
  listing = λ b q w p. p;
  uploads = λ b w p. p;
}

pub mgr_store : OnlyRemoves mgr (λ q. q) (λ b. At)
mgr_store = record {
  reads = λ b p. mgr_reads (At p);
  aborts = λ b p b' k u w a. a;
  deletes = λ b p b' q h w a. remove-At p q w h a;
  moves = λ b p b' q r h w a. rename-At p q r w h a;
}

pub remove_absent : (p q : Bytes) (w : List ObjectInfo) → (At p w → ⊥) → At p (remove q w) → ⊥
remove_absent p q [] h a = a
remove_absent p q (o ∷ w) h a = elim (Bool-cases (eqb o.path q)) [
  | inl same ↦ remove_absent p q w (λ b. h (inr b)) (rw same at a)
  | inr other ↦ elim (rw other at a) [
    | inl e ↦ h (inl e)
    | inr b ↦ remove_absent p q w (λ b'. h (inr b')) b
  ]
]

pub remove_gone : (p : Bytes) (w : List ObjectInfo) → At p (remove p w) → ⊥
remove_gone p [] a = a
remove_gone p (o ∷ w) a = elim (Bool-cases (eqb o.path p)) [
  | inl same ↦ remove_gone p w (rw same at a)
  | inr other ↦ elim (rw other at a) [
    | inl e ↦ cc (other, subst (λ (q : Bytes). eqb q p ≡ true) (sym e) (eqb_refl p))
    | inr b ↦ remove_gone p w b
  ]
]

pub rename_absent :
    (p r q : Bytes) (w : List ObjectInfo) → q ≢ p → (At p w → ⊥) → At p (rename r q w) → ⊥
rename_absent p r q [] other h a = a
rename_absent p r q (o ∷ w) other h a = elim (Bool-cases (eqb o.path r)) [
  | inl same ↦ elim (rw same at a) [
    | inl e ↦ other e
    | inr b ↦ rename_absent p r q w other (λ b'. h (inr b')) b
  ]
  | inr away ↦ elim (rw away at a) [
    | inl e ↦ h (inl e)
    | inr b ↦ rename_absent p r q w other (λ b'. h (inr b')) b
  ]
]

pub rename_gone : (p q : Bytes) (w : List ObjectInfo) → q ≢ p → At p (rename p q w) → ⊥
rename_gone p q [] other a = a
rename_gone p q (o ∷ w) other a = elim (Bool-cases (eqb o.path p)) [
  | inl same ↦ elim (rw same at a) [ inl e ↦ other e | inr b ↦ rename_gone p q w other b ]
  | inr away ↦ elim (rw away at a) [
    | inl e ↦ cc (away, subst (λ (r : Bytes). eqb r p ≡ true) (sym e) (eqb_refl p))
    | inr b ↦ rename_gone p q w other b
  ]
]
