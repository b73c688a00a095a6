-- ===== src/Proc/Conn.antt =====
-- ProcConn and ProcMotion of pkg/proc/interaction.go: the request packet is read, decoded, and
-- handed to the handler of its type. The handlers are the ProtoMgr interface of pkg/proto/mgr.go;
-- a call of one is a value here.
pub mod Requests
pub mod Malformed
mod Tests
use yproxy.Base.{
  ℕ, Bool, true, false, Option, none, some, List, [], ◌∷◌, ◌==◌, if◌then◌else◌, ◌>>=◌,
}
use yproxy.Bytes.{Bytes}
use yproxy.Io.Packet.{ReadError, Read, ok, err, panic, read_packet}
use yproxy.Message.Settings.{StorageSettings}
use yproxy.Message.Kind.{
  MessageType, message_type_cat, message_type_cat_v2, message_type_put, message_type_put_v2,
  message_type_put_v3, message_type_list, message_type_list_v2, message_type_copy,
  message_type_copy_v2, message_type_delete, message_type_delete2, message_type_untrashify,
  message_type_gool, message_collect_obsolete, message_delete_obsolete,
}
use yproxy.Message.Cat
use yproxy.Message.CatV2
use yproxy.Message.Put
use yproxy.Message.PutV2
use yproxy.Message.PutV3
use yproxy.Message.List as ListMsg
use yproxy.Message.ListV2
use yproxy.Message.Copy
use yproxy.Message.CopyV2
use yproxy.Message.Delete
use yproxy.Message.Delete.{DeleteMessage}
use yproxy.Message.Delete2
use yproxy.Message.Delete2.{Delete2Message}
use yproxy.Message.Untrashify
use yproxy.Message.Untrashify.{UntrashifyMessage}
use yproxy.Message.Gool
use yproxy.Message.Obsolete
use yproxy.Message.Obsolete.{ObsoleteMessage}

-- The arguments that ProcConn passes to ProcessCatExtended, ProcessPutExtended,
-- ProcessListExtended and ProcessCopyExtended, beside the objects that it passes on.
pub record CatArgs : Type 0 where
  pub name : Bytes
  pub decrypt : Bool
  pub kek : Bool
  pub start_offset : ℕ
  pub settings : List StorageSettings

pub record PutArgs : Type 0 where
  pub name : Bytes
  pub encrypt : Bool
  pub settings : List StorageSettings
  pub reply_kv : Bool

pub record ListArgs : Type 0 where
  pub prefix : Bytes
  pub settings : List StorageSettings

pub record CopyArgs : Type 0 where
  pub name : Bytes
  pub old_cfg_path : Bytes
  pub port : ℕ
  pub confirm : Bool
  pub encrypt : Bool
  pub decrypt : Bool
  pub kek_decrypt : Bool
  pub server_side : Bool
  pub reply_kv : Bool

-- The methods of ProtoMgr, and ProcMotion.
pub data Call : Type 0 where
  process_cat_extended : CatArgs → Call
  process_put_extended : PutArgs → Call
  process_list_extended : ListArgs → Call
  process_copy_extended : CopyArgs → Call
  process_delete_extended : DeleteMessage → Call
  process_delete2_extended : Delete2Message → Call
  process_untrashify : UntrashifyMessage → Call
  process_collect_obsolete process_delete_obsolete : ObsoleteMessage → Call
  proc_motion : Call

-- `replied_error` and `unsupported` are the two error replies of ProcConn itself; `crashed` is a
-- panic, which nothing recovers.
pub data Outcome : Type 0 where
  call : Call → Outcome
  replied_error : ReadError → Outcome
  unsupported : MessageType → Outcome
  crashed : Outcome

-- The message is decoded into a zero value, and its handler is called.
abbrev handle {ℓ} : {M : Type ℓ} → Option M → (M → Call) → Outcome
handle none f = crashed
handle (some m) f = call (f m)

abbrev cat_args : Cat.CatMessage → Call
cat_args m = process_cat_extended (record {
  name = m.name;
  decrypt = m.decrypt;
  kek = false;
  start_offset = m.start_offset;
  settings = [];
})

abbrev cat_v2_args : CatV2.CatMessageV2 → Call
cat_v2_args m = process_cat_extended (record {
  name = m.name;
  decrypt = m.decrypt;
  kek = m.kek;
  start_offset = m.start_offset;
  settings = m.settings;
})

abbrev put_args : Put.PutMessage → Call
put_args m =
    process_put_extended
      (record { name = m.name; encrypt = m.encrypt; settings = []; reply_kv = false })

abbrev put_v2_args : PutV2.PutMessageV2 → Call
put_v2_args m =
    process_put_extended
      (record { name = m.name; encrypt = m.encrypt; settings = m.settings; reply_kv = false })

abbrev put_v3_args : PutV3.PutMessageV3 → Call
put_v3_args m =
    process_put_extended
      (record { name = m.name; encrypt = m.encrypt; settings = m.settings; reply_kv = true })

abbrev list_args : ListMsg.ListMessage → Call
list_args m = process_list_extended (record { prefix = m.prefix; settings = [] })

abbrev list_v2_args : ListV2.ListMessageV2 → Call
list_v2_args m = process_list_extended (record { prefix = m.prefix; settings = m.settings })

abbrev copy_args : Copy.CopyMessage → Call
copy_args m = process_copy_extended (record {
  name = m.name;
  old_cfg_path = m.old_cfg_path;
  port = m.port;
  confirm = m.confirm;
  encrypt = m.encrypt;
  decrypt = m.decrypt;
  kek_decrypt = false;
  server_side = false;
  reply_kv = false;
})

abbrev copy_v2_args : CopyV2.CopyMessageV2 → Call
copy_v2_args m = process_copy_extended (record {
  name = m.name;
  old_cfg_path = m.old_cfg_path;
  port = m.port;
  confirm = m.confirm;
  encrypt = m.encrypt;
  decrypt = m.decrypt;
  kek_decrypt = m.kek_decrypt;
  server_side = m.server_side_copy;
  reply_kv = true;
})

-- switch tp
unfoldable pub dispatch : MessageType → Bytes → Outcome
dispatch tp body =
    if tp == message_type_cat
    then handle (Cat.decode Cat.empty body) cat_args
    else if tp == message_type_cat_v2
    then handle (CatV2.decode CatV2.empty body) cat_v2_args
    else if tp == message_type_put
    then handle (Put.decode Put.empty body) put_args
    else if tp == message_type_put_v2
    then handle (PutV2.decode PutV2.empty body) put_v2_args
    else if tp == message_type_put_v3
    then handle (PutV3.decode PutV3.empty body) put_v3_args
    else if tp == message_type_list
    then handle (ListMsg.decode ListMsg.empty body) list_args
    else if tp == message_type_list_v2
    then handle (ListV2.decode ListV2.empty body) list_v2_args
    else if tp == message_type_copy
    then handle (Copy.decode Copy.empty body) copy_args
    else if tp == message_type_copy_v2
    then handle (CopyV2.decode CopyV2.empty body) copy_v2_args
    else if tp == message_type_delete
    then handle (Delete.decode Delete.empty body) process_delete_extended
    else if tp == message_type_delete2
    then handle (Delete2.decode Delete2.empty body) process_delete2_extended
    else if tp == message_type_untrashify
    then handle (Untrashify.decode Untrashify.empty body) process_untrashify
    else if tp == message_type_gool
    then call proc_motion
    else if tp == message_collect_obsolete
    then handle (Obsolete.decode Obsolete.empty body) process_collect_obsolete
    else if tp == message_delete_obsolete
    then handle (Obsolete.decode Obsolete.empty body) process_delete_obsolete
    else unsupported tp

dispatch_read : Read (MessageType × Bytes) × Bytes → Outcome × Bytes
dispatch_read (ok (tp, body), conn) = (dispatch tp body, conn)
dispatch_read (err e, conn) = (replied_error e, conn)
dispatch_read (panic, conn) = (crashed, conn)

-- ProcConn up to the call of the handler, with what is then left on the connection.
unfoldable pub proc_conn : Bytes → Outcome × Bytes
unfolding dispatch_read
proc_conn conn = dispatch_read (read_packet conn)

pub data MotionOutcome : Type 0 where
  ready motion_replied_error motion_crashed : MotionOutcome

-- ProcMotion reads a packet of its own, and answers `ready for query` whatever its type.
motion_read : Read (MessageType × Bytes) × Bytes → MotionOutcome
motion_read (ok (tp, body), conn) = elim (Gool.decode Gool.empty body) [
  | none ↦ motion_crashed
  | some m ↦ ready
]
motion_read (err e, conn) = motion_replied_error
motion_read (panic, conn) = motion_crashed

unfoldable pub motion : Bytes → MotionOutcome
unfolding motion_read
motion conn = motion_read (read_packet conn)
