-- ===== src/Proc/Obsolete/Tests.antt =====
-- A storage of three files: one that a table uses, one with a hint that the first backup needs, and
-- one with an older hint.
use yproxy.Base.{
  ℕ, ◌≡◌, ◌≢◌, refl, sym, ap, subst, inl, inr, Bool, true, false, List, [], ◌∷◌, Elem,
  if◌then◌else◌, Bool-cases, arith, ◌≤◌,
}
use yproxy.Bytes.{Bytes, eqb, eqb-eq}
use yproxy.Message.Obsolete.{ObsoleteMessage}
use yproxy.Database.{Maps, ok-injective}
use yproxy.Proc.Effect.{ok}
use yproxy.Proc.Obsolete.{Services, in_virtual, process_delete_obsolete, process_collect_obsolete}
use yproxy.Proc.Obsolete.Delete.{OnlyMoves, AllSpared, process_delete_obsolete-Keeps}
use yproxy.Proc.Obsolete.Collect.{Outlasts, process_collect_obsolete-Keeps}

-- Which objects there are, and which have a hint.
abbrev World : Type 0
World = (Bytes → Bool) × (Bytes → Bool)

abbrev path : ℕ → Bytes
path n = 97 ∷ n ∷ []

abbrev set : Bytes → Bool → (Bytes → Bool) → Bytes → Bool
set p b f q = if eqb q p then b else f q

abbrev maps : Maps
maps = record { virtual = path 1 ∷ []; expire = (path 2, 9) ∷ (path 3, 4) ∷ [] }

abbrev services : Services World Unit
services = record {
  list_path = λ p w. (
    ok (
        record { path = path 1; size = 0; last_mod = 0 }
        ∷ record { path = path 4; size = 0; last_mod = 0 }
        ∷ []),
    w,
  );
  move_object = λ b q to w. (ok tt, (set q false (set to true w.0), w.1));
  default_bucket = [];
  get_first_lsn = λ seg w. (ok 7, w);
  get_virtual_expire_indexes = λ port w. (ok maps, w);
  get_next_lsn = λ port db w. (ok 20, w);
  get_connect_to_database = λ port db w. (ok tt, w);
  add_to_expire_index = λ conn q lsn w. (ok tt, (w.0, set q true w.1));
  delete_from_expire_index = λ conn q w. (ok tt, (w.0, set q false w.1));
  reply_error = λ e t w. w;
  range_order = λ es. es;
}

abbrev all : World
all = (λ q. true, λ q. false)

abbrev request : ObsoleteMessage
request = record { segnum = 1; port = 5432; db_name = []; message = 97 ∷ [] }

set-other : (q p : Bytes) (b c : Bool) (f : Bytes → Bool) → q ≢ p → f p ≡ c → set q b f p ≡ c
set-other q p b c f other h = elim (Bool-cases (eqb p q)) [
  | inl same ↦ absurd (other (sym (eqb-eq p q same)))
  | inr apart ↦ rw apart h
]

set-true : (q p : Bytes) (f : Bytes → Bool) → f p ≡ true → set q true f p ≡ true
set-true q p f h = elim (Bool-cases (eqb p q)) [ inl same ↦ rw same refl | inr apart ↦ rw apart h ]

services-OnlyMoves : (p : Bytes) → OnlyMoves services (λ q. q) (λ w. w.0 p ≡ true) p
services-OnlyMoves p = record {
  indexes = λ port w h. h;
  first_lsn = λ seg w h. h;
  connects = λ port db w h. h;
  hints = λ conn q w h. h;
  moves =
      λ b q to other w h. set-other q p false true (set to true w.0) other (set-true to p w.0 h);
}

-- The hints of the second path have LSN 9.
abbrev Above : List (Bytes × ℕ) → Type 0
Above es = (lsn : ℕ) → Elem (path 2, lsn) es → 7 ≤ lsn

needed : Above maps.expire
needed lsn (inl same) = omega (arith, ap (λ (e : Bytes × ℕ). e.1) same)
needed lsn (inr (inl other)) = absurd (different (ap (λ (e : Bytes × ℕ). eqb e.0 (path 3)) other))
  where
    different : true ≢ false
    different h = cc
needed lsn (inr (inr none_left)) = absurd none_left

abbrev Other : Bytes → Maps → ℕ → Type 0
Other = AllSpared services (λ q. q) (λ w. w.0 (path 2) ≡ true) (path 2)

spared : Other request.message maps 7
spared e inside same =
    inr (inl (subst (λ q. (lsn : ℕ) → Elem (q, lsn) maps.expire → 7 ≤ lsn) (sym same) needed))

process_delete_obsolete-Keeps_example :
    ((process_delete_obsolete services request all).1.0 (path 2) ≡ true)
process_delete_obsolete-Keeps_example =
    process_delete_obsolete-Keeps services (λ q. q) (λ w. w.0 (path 2) ≡ true) (path 2)
      (services-OnlyMoves (path 2)) request (λ es e h. h)
      (λ w w' m n index lsn.
        subst (λ (k : ℕ). Other request.message m k) (ok-injective lsn)
          (subst (λ (k : Maps). Other request.message k 7) (ok-injective index) spared))
      all refl

services-Outlasts : (P : World → Type 0) → Outlasts services P
services-Outlasts P = record {
  listing = λ p w h. h;
  indexes = λ port w h. h;
  next_lsn = λ port db w h. h;
  connects = λ port db w h. h;
  replies = λ e t w h. h;
}

process_collect_obsolete-Keeps_example :
    (process_collect_obsolete services request all).1.1 (path 1) ≡ false
unfolding in_virtual
process_collect_obsolete-Keeps_example =
    process_collect_obsolete-Keeps services (λ w. w.1 (path 1) ≡ false) (services-Outlasts _)
      request (path 1) (λ q other conn lsn w h. set-other q (path 1) true false w.1 other h)
      (λ w m index.
        inl (subst (λ (k : Maps). in_virtual (path 1) k.virtual ≡ true) (ok-injective index) refl))
      all refl
