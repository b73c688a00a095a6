-- ===== src/Proc/Conn/Requests.antt =====
-- From a request's Encode to the handler's arguments.
use yproxy.Base.{◌+◌, ◌≤◌, ◌≡◌, refl, ap, ◌∷◌, ◌++◌, length}
use yproxy.Bytes.{Bytes, IsU64}
use yproxy.Io.Packet.{read_packet-frame, max_msg_len}
use yproxy.Message.Cstring.{NoNul}
use yproxy.Message.Frame.{frame}
use yproxy.Message.Kind.{
  MessageType, message_type_cat, message_type_cat_v2, message_type_put, message_type_put_v2,
  message_type_put_v3, message_type_list, message_type_list_v2, message_type_copy,
  message_type_copy_v2, message_type_delete, message_type_delete2, message_type_untrashify,
}
use yproxy.Message.Cat
use yproxy.Message.CatV2
use yproxy.Message.Put
use yproxy.Message.PutV2
use yproxy.Message.PutV3
use yproxy.Message.List as ListMsg
use yproxy.Message.ListV2
use yproxy.Message.Copy
use yproxy.Message.CopyV2
use yproxy.Message.Delete
use yproxy.Message.Delete2
use yproxy.Message.Untrashify
use yproxy.Proc.Conn.{
  Call, Outcome, call, handle, dispatch, dispatch_read, proc_conn, cat_args, cat_v2_args, put_args,
  put_v2_args, put_v3_args, list_args, list_v2_args, copy_args, copy_v2_args,
  process_delete_extended, process_delete2_extended, process_untrashify,
}

-- The requests whose Encode the clients use.
pub data Request : Type 0 where
  cat : Cat.CatMessage → Request
  cat_v2 : CatV2.CatMessageV2 → Request
  put : Put.PutMessage → Request
  put_v2 : PutV2.PutMessageV2 → Request
  put_v3 : PutV3.PutMessageV3 → Request
  list : ListMsg.ListMessage → Request
  list_v2 : ListV2.ListMessageV2 → Request
  copy : Copy.CopyMessage → Request
  copy_v2 : CopyV2.CopyMessageV2 → Request
  delete : Delete.DeleteMessage → Request
  delete2 : Delete2.Delete2Message → Request
  untrashify : Untrashify.UntrashifyMessage → Request

abbrev pub encode : Request → Bytes
encode (cat m) = Cat.encode m
encode (cat_v2 m) = CatV2.encode m
encode (put m) = Put.encode m
encode (put_v2 m) = PutV2.encode m
encode (put_v3 m) = PutV3.encode m
encode (list m) = ListMsg.encode m
encode (list_v2 m) = ListV2.encode m
encode (copy m) = Copy.encode m
encode (copy_v2 m) = CopyV2.encode m
encode (delete m) = Delete.encode m
encode (delete2 m) = Delete2.encode m
encode (untrashify m) = Untrashify.encode m

-- The handler that the request is meant for, with the request's fields.
abbrev pub call_of : Request → Call
call_of (cat m) = cat_args m
call_of (cat_v2 m) = cat_v2_args m
call_of (put m) = put_args m
call_of (put_v2 m) = put_v2_args m
call_of (put_v3 m) = put_v3_args m
call_of (list m) = list_args m
call_of (list_v2 m) = list_v2_args m
call_of (copy m) = copy_args m
call_of (copy_v2 m) = copy_v2_args m
call_of (delete m) = process_delete_extended m
call_of (delete2 m) = process_delete2_extended m
call_of (untrashify m) = process_untrashify m

abbrev pub IsSendable : Request → Type 0
IsSendable (cat m) = NoNul m.name × IsU64 m.start_offset
IsSendable (cat_v2 m) = CatV2.IsSendable m
IsSendable (put m) = NoNul m.name
IsSendable (put_v2 m) = PutV2.IsSendable m
IsSendable (put_v3 m) = PutV3.IsSendable m
IsSendable (list m) = NoNul m.prefix
IsSendable (list_v2 m) = ListV2.IsSendable m
IsSendable (copy m) = Copy.IsSendable m
IsSendable (copy_v2 m) = CopyV2.IsSendable m
IsSendable (delete m) = Delete.IsSendable m
IsSendable (delete2 m) = NoNul m.prefix
IsSendable (untrashify m) = NoNul m.name × IsU64 m.segnum

-- The body that Encode frames.
abbrev pub payload : Request → Bytes
payload (cat m) = Cat.payload m
payload (cat_v2 m) = CatV2.payload m
payload (put m) = Put.payload m
payload (put_v2 m) = PutV2.payload m
payload (put_v3 m) = PutV3.payload m
payload (list m) = ListMsg.payload m
payload (list_v2 m) = ListV2.payload m
payload (copy m) = Copy.payload m
payload (copy_v2 m) = CopyV2.payload m
payload (delete m) = Delete.payload m
payload (delete2 m) = Delete2.payload m
payload (untrashify m) = Untrashify.payload m

-- A framed body is dispatched on its first byte.
arrives :
    (tp : MessageType) (body rest : Bytes) (out : Outcome)
    → dispatch tp (tp ∷ body) ≡ out
    → length (tp ∷ body) + 8 ≤ max_msg_len
    → proc_conn (frame (tp ∷ body) ++ rest) ≡ (out, rest)
unfolding proc_conn dispatch_read
arrives tp body rest out h size = rw (read_packet-frame tp body rest size, h) refl

pub proc_conn-encode :
    (r : Request) (rest : Bytes)
    → IsSendable r
    → length (payload r) + 8 ≤ max_msg_len
    → proc_conn (encode r ++ rest) ≡ (call (call_of r), rest)
unfolding dispatch Cat.encode Cat.payload CatV2.encode CatV2.payload Put.encode Put.payload
    PutV2.encode PutV2.payload PutV3.encode PutV3.payload ListMsg.encode ListMsg.payload
    ListV2.encode ListV2.payload Copy.encode Copy.payload CopyV2.encode CopyV2.payload Delete.encode
    Delete.payload Delete2.encode Delete2.payload Untrashify.encode Untrashify.payload
proc_conn-encode (cat m) rest h size =
    arrives message_type_cat _ rest _
      (ap (λ o. handle o cat_args) (Cat.decode-payload_cat m h.0 h.1)) size
proc_conn-encode (cat_v2 m) rest h size =
    arrives message_type_cat_v2 _ rest _
      (ap (λ o. handle o cat_v2_args) (CatV2.decode-payload_cat_v2 m h)) size
proc_conn-encode (put m) rest h size =
    arrives message_type_put _ rest _ (ap (λ o. handle o put_args) (Put.decode-payload_put m h))
      size
proc_conn-encode (put_v2 m) rest h size =
    arrives message_type_put_v2 _ rest _
      (ap (λ o. handle o put_v2_args) (PutV2.decode-payload_put_v2 m h)) size
proc_conn-encode (put_v3 m) rest h size =
    arrives message_type_put_v3 _ rest _
      (ap (λ o. handle o put_v3_args) (PutV3.decode-payload_put_v3 m h)) size
proc_conn-encode (list m) rest h size =
    arrives message_type_list _ rest _
      (ap (λ o. handle o list_args) (ListMsg.decode-payload_list m h)) size
proc_conn-encode (list_v2 m) rest h size =
    arrives message_type_list_v2 _ rest _
      (ap (λ o. handle o list_v2_args) (ListV2.decode-payload_list_v2 m h)) size
proc_conn-encode (copy m) rest h size =
    arrives message_type_copy _ rest _ (ap (λ o. handle o copy_args) (Copy.decode-payload_copy m h))
      size
proc_conn-encode (copy_v2 m) rest h size =
    arrives message_type_copy_v2 _ rest _
      (ap (λ o. handle o copy_v2_args) (CopyV2.decode-payload_copy_v2 m h)) size
proc_conn-encode (delete m) rest h size =
    arrives message_type_delete _ rest _
      (ap (λ o. handle o process_delete_extended) (Delete.decode-payload_delete m h)) size
proc_conn-encode (delete2 m) rest h size =
    arrives message_type_delete2 _ rest _
      (ap (λ o. handle o process_delete2_extended) (Delete2.decode-payload_delete2 m h)) size
proc_conn-encode (untrashify m) rest h size =
    arrives message_type_untrashify _ rest _
      (ap (λ o. handle o process_untrashify) (Untrashify.decode-payload_untrashify m h.0 h.1)) size
