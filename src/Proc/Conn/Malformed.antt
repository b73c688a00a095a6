-- ===== src/Proc/Conn/Malformed.antt =====
-- What ProcConn does with packets that are no requests: those cut short, those of an unknown
-- type, and those too short for the decoder of their type.
use yproxy.Base.{
  ◌+◌, ◌^◌, ◌<◌, ◌≡◌, ◌↔◌, refl, ap, ◌∙◌, Bool, false, [], ◌∷◌, ◌++◌, ◌||◌, arith, length,
  length-append, append_assoc, ◌==◌,
}
use yproxy.Bytes.{Bytes, slice}
use yproxy.Io.Packet.{Read, ReadError, ok, err, panic, read_packet, read_packet-frame}
use yproxy.Io.Packet.Sound.{AreBytes, read_packet_iff, read_packet-ne-panic}
use yproxy.Message.Frame.{frame, frame-append_full}
use yproxy.Message.Kind.{
  MessageType, message_type_cat, message_type_cat_v2, message_type_put, message_type_put_v2,
  message_type_put_v3, message_type_list, message_type_list_v2, message_type_copy,
  message_type_copy_v2, message_type_delete, message_type_delete2, message_type_untrashify,
  message_collect_obsolete, message_delete_obsolete,
}
use yproxy.Message.Cat
use yproxy.Message.CatV2
use yproxy.Message.Put
use yproxy.Message.PutV2
use yproxy.Message.PutV3
use yproxy.Message.List as ListMsg
use yproxy.Message.ListV2
use yproxy.Message.Copy
use yproxy.Message.CopyV2
use yproxy.Message.Delete
use yproxy.Message.Delete2
use yproxy.Message.Untrashify
use yproxy.Message.Obsolete
use yproxy.Proc.Conn.{crashed, replied_error, unsupported, dispatch, dispatch_read, proc_conn}

-- The types whose packets ProcConn decodes.
pub data DecodedKind : Type 0 where
  cat cat_v2 put put_v2 put_v3 list list_v2 copy copy_v2 : DecodedKind
  delete delete2 untrashify collect_obsolete delete_obsolete : DecodedKind

abbrev pub tag : DecodedKind → MessageType
tag cat = message_type_cat
tag cat_v2 = message_type_cat_v2
tag put = message_type_put
tag put_v2 = message_type_put_v2
tag put_v3 = message_type_put_v3
tag list = message_type_list
tag list_v2 = message_type_list_v2
tag copy = message_type_copy
tag copy_v2 = message_type_copy_v2
tag delete = message_type_delete
tag delete2 = message_type_delete2
tag untrashify = message_type_untrashify
tag collect_obsolete = message_collect_obsolete
tag delete_obsolete = message_delete_obsolete

dispatch_short :
    (k : DecodedKind) (rest : Bytes) → length rest < 3 → dispatch (tag k) (tag k ∷ rest) ≡ crashed
unfolding dispatch slice Cat.decode CatV2.decode Put.decode PutV2.decode PutV3.decode ListMsg.decode
    ListV2.decode Copy.decode CopyV2.decode Delete.decode Delete2.decode Untrashify.decode
    Obsolete.decode
dispatch_short cat [] h = refl
dispatch_short cat (a ∷ []) h = refl
dispatch_short cat (a ∷ b ∷ []) h = refl
dispatch_short cat (a ∷ b ∷ c ∷ rest) h = absurd (omega arith)
dispatch_short _ [] h = refl
dispatch_short _ (a ∷ []) h = refl
dispatch_short _ (a ∷ b ∷ []) h = refl
dispatch_short _ (a ∷ b ∷ c ∷ rest) h = absurd (omega arith)

-- A packet of one to three bytes of body crashes the server, whatever the request that its first
-- byte names, `GOOL` apart: the decoder of that type slices beyond the body.
pub proc_conn_short :
    (k : DecodedKind) (rest conn : Bytes)
    → length rest < 3
    → proc_conn (frame (tag k ∷ rest) ++ conn) ≡ (crashed, conn)
unfolding proc_conn dispatch_read
proc_conn_short k rest conn h =
    rw (read_packet-frame (tag k) rest conn (omega arith), dispatch_short k rest h) refl

-- The request types that a client may send.
abbrev pub is_request : MessageType → Bool
is_request tp =
    (tp == 42 || tp == 43 || tp == 47 || tp == 48 || tp == 51 || tp == 52 || tp == 53)
    || (tp == 54
        || tp == 56
        || tp == 58
        || tp == 59
        || tp == 61
        || tp == 62
        || tp == 64
        || tp == 65)

-- ProcConn answers that a type is unsupported exactly when it is no request type, whatever the
-- body.
pub dispatch-unsupported_iff :
    (tp : MessageType) (body : Bytes)
    → (dispatch tp body ≡ unsupported tp) ↔ (is_request tp ≡ false)
unfolding dispatch
dispatch-unsupported_iff tp body = (λ h. ground arith, λ h. ground arith)

-- A connection that ends inside a request's packet gets an error reply: no handler is called, and
-- the server does not crash.
pub proc_conn_cut :
    (body front back : Bytes)
    → AreBytes front
    → length body + 8 < 2 ^ 64
    → frame body ≡ front ++ back
    → 0 < length back
    → (e : ReadError) × ((proc_conn front).0 ≡ replied_error e)
unfolding proc_conn dispatch_read
proc_conn_cut body front back bytes small whole more = from_read (read_packet front) refl
  where
    from_read :
        (read : Read (MessageType × Bytes) × Bytes)
        → read_packet front ≡ read
        → (e : ReadError) × ((dispatch_read read).0 ≡ replied_error e)
    from_read (ok (tp, got), rest) h =
        let (tail, head, parsed, fits) = (read_packet_iff front got rest tp bytes).0 h in
        let again : frame body ≡ frame got ++ (rest ++ back) =
          whole ∙ ap (λ (t : Bytes). t ++ back) parsed ∙ append_assoc (frame got) rest back in
        let none_left = frame-append_full body got (rest ++ back) small (omega arith) again in
        absurd (omega (arith, none_left, length-append {0} rest back))
    from_read (err e, rest) h = (e, refl)
    from_read (panic, rest) h = absurd (read_packet-ne-panic front (rw h))
