-- ===== src/Proc/Garbage/Select.antt =====
-- What ListGarbageFiles of pkg/proc/delete_handler.go finds.
use Prim.Native.String.{String}
use yproxy.Base.{
  ℕ, ◌+◌, ◌≤◌, ◌<◌, ◌≡◌, ◌↔◌, sym, subst, Bool, true, false, some, List, [], ◌∷◌, ◌⊎◌, inl, inr,
  Bool-cases, Option-cases, arith,
}
use yproxy.Bytes.{Bytes}
use yproxy.Message.ObjectMeta.{ObjectInfo}
use yproxy.Message.Delete.{DeleteMessage}
use yproxy.Proc.Effect.{ok, bind-ok}
use yproxy.Proc.Garbage.Mgr.{BasicGarbageMgr, Indexes, Vacuum, wrapped, clamp}
use yproxy.Proc.Garbage.Handlers.{
  is_garbage, filter, first_backup_lsn, list_garbage_files, list_and_look_up, look_up,
  select_garbage,
}
use yproxy.Proc.Garbage.Safety.{wrap_result-ok}

abbrev pub In : ObjectInfo → List ObjectInfo → Type 0
In f [] = ⊥
In f (g ∷ files) = (g ≡ f) ⊎ In f files

-- The answers that a listing of garbage was made from, each with the state in which it was given.
pub record Seen {W : Type 0} (dh : BasicGarbageMgr W) (bucket : Bytes) (msg : DeleteMessage) (w : W)
    (files : List ObjectInfo) : Type 0 where
  pub first_lsn : ℕ
  pub objects : List ObjectInfo
  pub ix : Indexes
  pub at_lsn : W
  pub at_objects : W
  pub at_indexes : W
  pub lsn : (first_backup_lsn dh msg at_lsn).0 ≡ ok first_lsn
  pub listed : (dh.storage.list_bucket_path bucket msg.name at_objects).0 ≡ ok objects
  pub indexes : (dh.get_virtual_expire_indexes msg.port at_indexes).0 ≡ ok ix
  pub selected : filter (is_garbage dh.cnf (dh.clock w).0 first_lsn ix) objects ≡ files

pub list_garbage_files_ok :
    {W : Type 0} (dh : BasicGarbageMgr W) (bucket : Bytes) (msg : DeleteMessage) (w : W)
    (files : List ObjectInfo)
    → (list_garbage_files dh bucket msg w).0 ≡ ok files
    → Seen dh bucket msg w files
unfolding list_garbage_files
list_garbage_files_ok {W} dh bucket msg w files h =
    let (start, _) = dh.clock w in
    let w₁ = (dh.clock w).1 in
    let (first_lsn, lsn, h₂) =
      bind-ok (first_backup_lsn dh msg) (list_and_look_up dh bucket msg start) w₁ files h in
    let w₂ = (first_backup_lsn dh msg w₁).1 in
    let list = dh.storage.list_bucket_path bucket msg.name in
    let list_text : String = "could not list objects" in
    let (objects, listed, h₃) =
      bind-ok (wrapped list_text list) (look_up dh msg start first_lsn) w₂ files h₂ in
    let w₃ = (wrapped list_text list w₂).1 in
    let get = dh.get_virtual_expire_indexes msg.port in
    let text : String = "could not get virtual and expire indexes" in
    let (ix, answer, h₄) =
      bind-ok (wrapped text get) (select_garbage dh msg start first_lsn objects) w₃ files h₃ in
    record {
      first_lsn = first_lsn;
      objects = objects;
      ix = ix;
      at_lsn = w₁;
      at_objects = w₂;
      at_indexes = w₃;
      lsn = lsn;
      listed = wrap_result-ok (list w₂) list_text objects listed;
      indexes = wrap_result-ok (get w₃) text ix answer;
      selected = cc;
    }

-- No table uses the file, it is as old as the protection window asks, and no LSN that the expire
-- index has for it is one that the first backup needs.
pub record IsGarbage (cnf : Vacuum) (start first_lsn : ℕ) (ix : Indexes) (f : ObjectInfo)
    : Type 0 where
  pub unused : ix.vi f.path ≡ false
  pub old : f.last_mod + clamp cnf.protection_window ≤ start
  pub unneeded : (lsn : ℕ) → ix.ei f.path ≡ some lsn → lsn < first_lsn

is_garbage-IsGarbage :
    (cnf : Vacuum) (start first_lsn : ℕ) (ix : Indexes) (f : ObjectInfo)
    → (is_garbage cnf start first_lsn ix f ≡ true) ↔ IsGarbage cnf start first_lsn ix f
unfolding is_garbage
is_garbage-IsGarbage cnf start first_lsn ix f = (
  λ h. record { unused = grind arith; old = grind arith; unneeded = λ lsn e. grind arith },
  λ g. elim (Option-cases (ix.ei f.path)) [
    | inl e ↦ grind (arith, g.unused, g.old, e)
    | inr (lsn, e) ↦ grind (arith, g.unused, g.old, e, g.unneeded lsn e)
  ],
)

pub filter-In :
    (p : ObjectInfo → Bool) (f : ObjectInfo) (xs : List ObjectInfo)
    → In f (filter p xs) ↔ (In f xs × (p f ≡ true))
unfolding filter
filter-In p f [] = ((λ h. absurd h), λ h. absurd h.0)
filter-In p f (x ∷ xs) = elim (Bool-cases (p x)) [
  | inl e ↦ rw e (
    (λ h. elim h [
      | inl same ↦ (inl same, cc)
      | inr later ↦ let (a, b) = (filter-In p f xs).0 later in (inr a, b)
    ]),
    λ h. elim h.0 [ inl same ↦ inl same | inr later ↦ inr ((filter-In p f xs).1 (later, h.1)) ],
  )
  | inr e ↦ rw e (
    (λ h. let (a, b) = (filter-In p f xs).0 h in (inr a, b)),
    λ h. elim h.0 [ inl same ↦ absurd cc | inr later ↦ (filter-In p f xs).1 (later, h.1) ],
  )
]

-- A listing of garbage that succeeds has exactly those of the listed objects that no table uses,
-- that are as old as the protection window asks when it starts, and that the first backup does
-- not need.
pub list_garbage_files_iff :
    {W : Type 0} (dh : BasicGarbageMgr W) (bucket : Bytes) (msg : DeleteMessage) (w : W)
    (files : List ObjectInfo)
    → (list_garbage_files dh bucket msg w).0 ≡ ok files
    → (seen : Seen dh bucket msg w files) × ((f : ObjectInfo)
        → In f files
          ↔ (In f seen.objects × IsGarbage dh.cnf (dh.clock w).0 seen.first_lsn seen.ix f))
list_garbage_files_iff dh bucket msg w files h =
    let seen = list_garbage_files_ok dh bucket msg w files h in
    let test = is_garbage dh.cnf (dh.clock w).0 seen.first_lsn seen.ix in
    (
      seen,
      λ f.
          let garbage = is_garbage-IsGarbage dh.cnf (dh.clock w).0 seen.first_lsn seen.ix f in
          let within = filter-In test f seen.objects in
          (
            (λ h'.
                let (a, b) = within.0 (subst (λ fs. In f fs) (sym seen.selected) h') in
                (a, garbage.0 b)),
            λ (a, b). subst (λ fs. In f fs) seen.selected (within.1 (a, garbage.1 b)),
          ),
    )
