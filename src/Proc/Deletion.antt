-- ===== src/Proc/Deletion.antt =====
-- ProcessDeleteExtended, ProcessDelete2Extended and ProcessUntrashify of pkg/proc/interaction.go,
-- around the garbage manager.
pub mod Told
use yproxy.Base.{false, Option, none, some, [], ◌∷◌, if◌then◌else◌}
use yproxy.Bytes.{Bytes, ascii}
use yproxy.Message.CopyDone.{encode_ready_for_query}
use yproxy.Message.Error as ErrorMessage
use yproxy.Message.Delete.{DeleteMessage}
use yproxy.Message.Delete2.{Delete2Message}
use yproxy.Message.Untrashify.{UntrashifyMessage}
use yproxy.Proc.Effect.{Result, ok, err}
use yproxy.Proc.Reply.{failed_to_upload, reply_error, ready}
use yproxy.Proc.Garbage.Mgr.{BasicGarbageMgr, Error, Vacuum, pos}
use yproxy.Proc.Garbage.Handlers.{
  handle_delete_garbage, handle_delete_file, handle_delete2_prefix, handle_untrashify_file,
}

abbrev pub failed_to_finish : Bytes
failed_to_finish = ascii "failed to finish operation"

-- &config.Vacuum{}
abbrev pub no_vacuum : Vacuum
no_vacuum = record {
  check_backup = false;
  file_chunk_per_sec = pos 0;
  trash_retention_days = pos 0;
  trash_move_workers = pos 0;
  trash_delete_workers = pos 0;
  protection_window = pos 0;
}

-- `C` is the state of the client's connection, and `error_text` is err.Error().
module _ {C W : Type 0} (error_text : Error → Bytes) (write : Bytes → C → Option Error × C)
    (dh : BasicGarbageMgr W) where
  -- What each of the handlers does after the garbage manager.
  unfoldable pub answered : Bytes → Result Error Unit × W → C → Result Error Unit × C × W
  unfolding reply_error ready
  answered failure (err e, w) c = (err e, reply_error error_text write e failure c, w)
  answered failure (ok a, w) c = let (r, c') = ready error_text write c in (r, c', w)

  unfoldable pub process_delete_extended : DeleteMessage → C → W → Result Error Unit × C × W
  unfolding answered
  process_delete_extended msg c w =
      answered failed_to_finish
        (if msg.garbage then handle_delete_garbage dh msg w else handle_delete_file dh msg w) c

  unfoldable pub process_delete2_extended : Delete2Message → C → W → Result Error Unit × C × W
  unfolding answered
  process_delete2_extended msg c w = answered failed_to_finish (handle_delete2_prefix dh msg w) c

  -- It has no configuration of the vacuum.
  unfoldable pub process_untrashify : UntrashifyMessage → C → W → Result Error Unit × C × W
  unfolding answered
  process_untrashify msg c w =
      answered failed_to_upload (handle_untrashify_file (record dh { cnf = no_vacuum }) msg w) c
