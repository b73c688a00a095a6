-- ===== src/Proc/Copy/Tests.antt =====
-- ListFilesToCopy over a source of three objects, one of which is not in the virtual index, and one
-- of which is at the destination.
use yproxy.Base.{
  ℕ, ◌≡◌, ◌↔◌, refl, true, false, List, [], ◌∷◌, ◌||◌, ◌⊎◌, Option, none, some, arith,
  if◌then◌else◌,
}
use yproxy.Bytes.{Bytes, eqb}
use yproxy.Proc.Copy.Workers.{CopyServices, Modes, Rounds, attempt}
use yproxy.Proc.Copy.Workers.Lost.{failure_lost}
use yproxy.Message.ObjectMeta.{ObjectInfo}
use yproxy.Proc.Effect.{ok}
use yproxy.Proc.Garbage.Select.{In}
use yproxy.Proc.Copy.{CopyLister, Lists, list_files_to_copy, split_objects, is_copied, trim_prefix}
use yproxy.Proc.Copy.Select.{Seen, ToCopy, list_files_to_copy_iff}

-- The paths are "s/" and a letter.
abbrev object : ℕ → ObjectInfo
object c = record { path = 115 ∷ 47 ∷ c ∷ []; size = 1; last_mod = 5 }

abbrev lister : CopyLister Unit Unit
lister = record {
  src_list_path = λ p c w. (ok (object 97 ∷ object 98 ∷ object 99 ∷ []), w);
  dst_list_path = λ p c w. (ok (object 97 ∷ []), w);
  get_virtual_index = λ n w. (ok (λ p. eqb p (97 ∷ []) || eqb p (98 ∷ [])), w);
  storage_prefix = 115 ∷ 47 ∷ [];
  storage_optimize_copy = true;
}

abbrev lists : Lists
lists = record { to_copy = object 98 ∷ []; skipped = object 97 ∷ object 99 ∷ [] }

lists_found : (list_files_to_copy lister [] 5432 tt).0 ≡ ok lists
unfolding list_files_to_copy split_objects is_copied trim_prefix
lists_found = refl

list_files_to_copy_iff_example :
    (seen : Seen lister [] 5432 tt lists) × ((f : ObjectInfo)
      → (In f lists.to_copy ↔ (In f seen.objects × ToCopy lister seen.vi seen.copied f))
        × (In f seen.objects → In f lists.to_copy ⊎ In f lists.skipped))
list_files_to_copy_iff_example = list_files_to_copy_iff lister [] 5432 tt lists lists_found

-- A destination that refuses one of the paths, and the objects that it has by path.
abbrev put_unless_a : Bytes → Bytes → List (Bytes × Bytes) → Option ℕ × List (Bytes × Bytes)
put_unless_a p stream w = if eqb p (97 ∷ []) then (some 2, w) else (none, (p, stream) ∷ w)

abbrev services : CopyServices (List (Bytes × Bytes)) ℕ
services = record {
  copy_object = λ p w. (some 1, w);
  read_old_bucket = λ p w. ((none, p), w);
  decrypt = λ r. some r;
  encrypt = none;
  put_file_to_dest = put_unless_a;
  storage_prefix = [];
}

abbrev modes : Modes
modes = record { ss_copy = false; encrypt = false; decrypt = true }

abbrev a : ObjectInfo
a = record { path = 97 ∷ []; size = 1; last_mod = 5 }

abbrev b : ObjectInfo
b = record { path = 98 ∷ []; size = 1; last_mod = 5 }

failure_lost_example : Rounds services modes 2 1 (a ∷ b ∷ []) none [] [] ((98 ∷ [], 98 ∷ []) ∷ [])
unfolding attempt trim_prefix
failure_lost_example =
    failure_lost services modes 2 0 a b 2 none [] [] ((98 ∷ [], 98 ∷ []) ∷ []) (omega arith) refl
      refl
