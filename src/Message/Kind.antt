-- ===== src/Message/Kind.antt =====
-- MessageType, RequestEncryption and KEKUsage of pkg/message/message.go: one byte each.
use Prim.Native.String.{String}
use yproxy.Base.{ℕ, ◌==◌, if◌then◌else◌}

abbrev pub MessageType : Type 0
MessageType = ℕ

-- const MessageTypeCat = MessageType(iota + 42), and so on
abbrev pub message_type_cat : MessageType
message_type_cat = 42

abbrev pub message_type_put : MessageType
message_type_put = 43

abbrev pub message_type_copy_done : MessageType
message_type_copy_done = 44

abbrev pub message_type_ready_for_query : MessageType
message_type_ready_for_query = 45

abbrev pub message_type_copy_data : MessageType
message_type_copy_data = 46

abbrev pub message_type_delete : MessageType
message_type_delete = 47

abbrev pub message_type_list : MessageType
message_type_list = 48

abbrev pub message_type_object_meta : MessageType
message_type_object_meta = 49

abbrev pub message_type_patch : MessageType
message_type_patch = 50

abbrev pub message_type_copy : MessageType
message_type_copy = 51

abbrev pub message_type_gool : MessageType
message_type_gool = 52

abbrev pub message_type_put_v2 : MessageType
message_type_put_v2 = 53

abbrev pub message_type_cat_v2 : MessageType
message_type_cat_v2 = 54

abbrev pub message_type_error : MessageType
message_type_error = 55

abbrev pub message_type_put_v3 : MessageType
message_type_put_v3 = 56

abbrev pub message_type_put_complete : MessageType
message_type_put_complete = 57

abbrev pub message_type_untrashify : MessageType
message_type_untrashify = 58

abbrev pub message_type_copy_v2 : MessageType
message_type_copy_v2 = 59

abbrev pub message_type_copy_complete : MessageType
message_type_copy_complete = 60

abbrev pub message_type_list_v2 : MessageType
message_type_list_v2 = 61

abbrev pub message_type_delete2 : MessageType
message_type_delete2 = 62

abbrev pub message_collect_obsolete : MessageType
message_collect_obsolete = 64

abbrev pub message_delete_obsolete : MessageType
message_delete_obsolete = 65

abbrev pub decrypt_message : ℕ
decrypt_message = 1

abbrev pub no_decrypt_message : ℕ
no_decrypt_message = 0

abbrev pub encrypt_message : ℕ
encrypt_message = 1

abbrev pub no_encrypt_message : ℕ
no_encrypt_message = 0

abbrev pub no_use_kek : ℕ
no_use_kek = 0

abbrev pub use_kek : ℕ
use_kek = 1

abbrev pub extended_message : ℕ
extended_message = 1

-- func (m MessageType) String() string
unfoldable pub to_string : MessageType → String
to_string m =
    if m == message_type_cat
    then "CAT"
    else if m == message_type_cat_v2
    then "CATV2"
    else if m == message_type_put
    then "PUT"
    else if m == message_type_put_v2
    then "PUTV2"
    else if m == message_type_put_v3
    then "PUTV3"
    else if m == message_type_put_complete
    then "PUTCOMPLETE"
    else if m == message_type_copy_done
    then "COMMAND COMPLETE"
    else if m == message_type_ready_for_query
    then "READY FOR QUERY"
    else if m == message_type_copy_data
    then "COPY DATA"
    else if m == message_type_delete
    then "DELETE"
    else if m == message_type_list
    then "LIST"
    else if m == message_type_list_v2
    then "LISTV2"
    else if m == message_type_object_meta
    then "OBJECT META"
    else if m == message_type_copy
    then "COPY"
    else if m == message_type_copy_v2
    then "COPYV2"
    else if m == message_type_gool
    then "GOOL"
    else if m == message_type_error
    then "ERROR"
    else if m == message_type_untrashify
    then "UNTRASHIFY"
    else if m == message_collect_obsolete
    then "COLLECT OBSOLETE"
    else if m == message_delete_obsolete
    then "DELETE OBSOLETE"
    else if m == message_type_copy_complete
    then "COPY COMPLETE"
    else if m == message_type_delete2
    then "DELETE2"
    else "UNKNOWN"
