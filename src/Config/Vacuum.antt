-- ===== src/Config/Vacuum.antt =====
-- config/vacuum.go. A duration is in nanoseconds.
use yproxy.Base.{◌*◌, ◌^◌, Bool, true, false, List, [], ◌∷◌}
use yproxy.Proc.Garbage.Mgr.{ℤ, pos, Vacuum}
use yproxy.Config.Storage.{apply_options}

-- The zero value
abbrev pub no_vacuum : Vacuum
no_vacuum = record {
  check_backup = false;
  file_chunk_per_sec = pos 0;
  trash_retention_days = pos 0;
  trash_move_workers = pos 0;
  trash_delete_workers = pos 0;
  protection_window = pos 0;
}

abbrev pub default_check_backup : Bool
default_check_backup = true

abbrev pub default_file_chunk_per_sec : ℤ
default_file_chunk_per_sec = pos 1000

abbrev pub default_trash_retention_days : ℤ
default_trash_retention_days = pos 7

abbrev pub default_trash_workers : ℤ
default_trash_workers = pos 1

abbrev pub default_protection_window : ℤ
default_protection_window = pos (24 * 60 * 60 * 10 ^ 9)

abbrev pub VacuumOption : Type 0
VacuumOption = Vacuum → Vacuum

abbrev pub with_check_backup : Bool → VacuumOption
with_check_backup check_backup v = record v { check_backup = check_backup }

abbrev pub with_file_chunk_per_sec : ℤ → VacuumOption
with_file_chunk_per_sec file_chunk_per_sec v = record v { file_chunk_per_sec = file_chunk_per_sec }

abbrev pub with_trash_retention_days : ℤ → VacuumOption
with_trash_retention_days trash_retention_days v = record v {
  trash_retention_days = trash_retention_days;
}

abbrev pub with_trash_move_workers : ℤ → VacuumOption
with_trash_move_workers trash_move_workers v = record v { trash_move_workers = trash_move_workers }

abbrev pub with_trash_delete_workers : ℤ → VacuumOption
with_trash_delete_workers trash_delete_workers v = record v {
  trash_delete_workers = trash_delete_workers;
}

abbrev pub with_protection_window : ℤ → VacuumOption
with_protection_window protection_window v = record v { protection_window = protection_window }

unfoldable pub build_vacuum : List VacuumOption → Vacuum
build_vacuum opts =
    apply_options
      (apply_options no_vacuum (
        with_check_backup default_check_backup
        ∷ with_file_chunk_per_sec default_file_chunk_per_sec
        ∷ with_trash_retention_days default_trash_retention_days
        ∷ with_trash_move_workers default_trash_workers
        ∷ with_trash_delete_workers default_trash_workers
        ∷ with_protection_window default_protection_window
        ∷ []))
      opts
