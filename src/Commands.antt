-- ===== src/Commands.antt =====
-- The commands of cmd/client/main.go: the request that each sends, and how it reads the answer. A
-- write to the server succeeds.
pub mod Server
pub mod Deleted
pub mod Copied
mod Tests
mod CopyTests
use yproxy.Base.{ℕ, Bool, true, false, none, some, List, [], ◌∷◌, ◌++◌, suc, ◌==◌, if◌then◌else◌}
use yproxy.Bytes.{Bytes, ascii}
use yproxy.Io.Packet.{ReadError, Read, ok, err, panic, read_packet}
use yproxy.Message.Kind.{
  MessageType, message_type_ready_for_query, message_type_error, message_type_copy_complete,
}
use yproxy.Message.Settings.{StorageSettings}
use yproxy.Message.CatV2.{CatMessageV2}
use yproxy.Message.PutV3.{PutMessageV3}
use yproxy.Message.List.{ListMessage}
use yproxy.Message.CopyV2.{CopyMessageV2}
use yproxy.Message.Delete.{DeleteMessage}
use yproxy.Message.Delete2.{Delete2Message}
use yproxy.Message.Untrashify.{UntrashifyMessage}
use yproxy.Message.Gool.{GoolMessage}
use yproxy.Message.Error as ErrorMessage
use yproxy.Message.CopyComplete as CopyComplete
use yproxy.Proc.Conn.Requests.{Request, cat_v2, put_v3, list, copy_v2, delete, delete2, untrashify}
use yproxy.Proc.Garbage.Mgr.{ℤ, pos, negsuc}
use yproxy.Proc.Garbage.Paths.{digits}
use yproxy.Storage.Settings.{
  default_tablespace, tablespace_setting, storage_class_setting, multipart_chunk_size_setting,
  multipart_upload_setting,
}

-- The flags of the commands, which are global variables.
pub record Flags : Type 0 where
  pub old_cfg_path : Bytes
  pub decrypt : Bool
  pub use_kek : Bool
  pub ss_copy : Bool
  pub encrypt : Bool
  pub storage_class : Bytes
  pub table_space : Bytes
  pub multipart_chunk_size : ℤ
  pub multipart_upload : Bool
  pub offset : ℕ
  pub segment_port : ℕ
  pub segment_num : ℕ
  pub confirm : Bool
  pub garbage : Bool
  pub crazy_drop : Bool

-- What init makes of the flags that are not given
abbrev pub default_flags : Flags
default_flags = record {
  old_cfg_path = ascii "/etc/yproxy/yproxy.yaml";
  decrypt = false;
  use_kek = false;
  ss_copy = false;
  encrypt = false;
  storage_class = ascii "STANDARD";
  table_space = default_tablespace;
  multipart_chunk_size = pos 67108864;
  multipart_upload = true;
  offset = 0;
  segment_port = 6000;
  segment_num = 0;
  confirm = false;
  garbage = false;
  crazy_drop = false;
}

-- fmt's %d of an int64, and its %t
abbrev pub decimal : ℤ → Bytes
decimal (pos n) = digits 20 n
decimal (negsuc n) = 45 ∷ digits 20 (suc n)

abbrev pub truth : Bool → Bytes
truth b = if b then ascii "true" else ascii "false"

abbrev pub put_settings : Flags → List StorageSettings
put_settings f =
    record { name = storage_class_setting; value = f.storage_class }
    ∷ record { name = tablespace_setting; value = f.table_space }
    ∷ record { name = multipart_chunk_size_setting; value = decimal f.multipart_chunk_size }
    ∷ record { name = multipart_upload_setting; value = truth f.multipart_upload }
    ∷ []

abbrev pub cat_request : Flags → Bytes → Request
cat_request f name = cat_v2 (record {
  name = name;
  decrypt = f.decrypt;
  kek = f.use_kek;
  start_offset = f.offset;
  settings = [];
})

abbrev pub put_request : Flags → Bytes → Request
put_request f name = put_v3 (record { name = name; encrypt = f.encrypt; settings = put_settings f })

abbrev pub list_request : Bytes → Request
list_request prefix = list (record { prefix = prefix })

abbrev pub copy_request : Flags → Bytes → Request
copy_request f name = copy_v2 (record {
  name = name;
  old_cfg_path = f.old_cfg_path;
  encrypt = f.encrypt;
  decrypt = f.decrypt;
  confirm = f.confirm;
  kek_decrypt = f.use_kek;
  server_side_copy = f.ss_copy;
  port = f.segment_port;
})

abbrev pub delete_message : Flags → Bytes → DeleteMessage
delete_message f name = record {
  name = name;
  port = f.segment_port;
  segnum = f.segment_num;
  confirm = f.confirm;
  garbage = f.garbage;
  crazy_drop = f.crazy_drop;
}

abbrev pub delete_chunk_request : Flags → Bytes → Request
delete_chunk_request f name = delete (delete_message f name)

abbrev pub delete_trash_request : Flags → Bytes → Request
delete_trash_request f prefix =
    delete2 (record { prefix = prefix; confirm = f.confirm; garbage = f.garbage })

abbrev pub untrashify_message : Flags → Bytes → UntrashifyMessage
untrashify_message f name = record { name = name; segnum = f.segment_num; confirm = f.confirm }

abbrev pub untrashify_request : Flags → Bytes → Request
untrashify_request f name = untrashify (untrashify_message f name)

-- How a command ends; `panicked` is a run-time panic.
pub data Ended : Type 0 where
  succeeded : Ended
  no_answer : ReadError → Ended
  failed : Bytes → Ended
  panicked : Ended

-- sendDeleteChunkRequest, sendDeleteTrashRequest, untrashifyFunc and goolFunc behind their
-- requests: the first packet has to be ReadyForQuery.
pub ready_read : Read (MessageType × Bytes) → Ended
ready_read (ok (tp, body)) = if tp == message_type_ready_for_query then succeeded else failed body
ready_read (err e) = no_answer e
ready_read panic = panicked

unfoldable pub read_ready : Bytes → Ended
unfolding ready_read
read_ready conn = ready_read (read_packet conn).0

-- How copyFunc ends: with the key version that it prints, with the two texts of an error message,
-- or in one of the other ways.
pub data CopyEnded : Type 0 where
  copied : ℕ → CopyEnded
  refused : Bytes → Bytes → CopyEnded
  not_copied : Ended → CopyEnded

pub copy_ready : ℕ → Ended → CopyEnded
copy_ready version succeeded = copied version
copy_ready version e = not_copied e

pub copy_read : Read (MessageType × Bytes) × Bytes → CopyEnded
unfolding copy_ready read_ready
copy_read (ok (tp, body), conn) =
    if tp == message_type_error
    then elim (ErrorMessage.decode ErrorMessage.empty body) [
      | none ↦ not_copied panicked
      | some m ↦ refused m.message m.error
    ]
    else if tp == message_type_copy_complete
    then elim (CopyComplete.decode (record { key_version = 0 }) body) [
      | none ↦ not_copied panicked
      | some m ↦ copy_ready m.key_version (read_ready conn)
    ]
    else not_copied (failed body)
copy_read (err e, conn) = not_copied (no_answer e)
copy_read (panic, conn) = not_copied panicked

-- copyFunc behind its request
unfoldable pub read_copied : Bytes → CopyEnded
unfolding copy_read
read_copied conn = copy_read (read_packet conn)
