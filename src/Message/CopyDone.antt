-- ===== src/Message/CopyDone.antt =====
-- CopyDoneMessage and ReadyForQueryMessage (pkg/message/copy_done.go, ready_for_query.go), which
-- have no fields: their Decode does nothing.
use yproxy.Base.{[], ◌∷◌}
use yproxy.Bytes.{Bytes}
use yproxy.Message.Frame.{frame}
use yproxy.Message.Kind.{message_type_copy_done, message_type_ready_for_query}

unfoldable pub copy_done_payload : Bytes
copy_done_payload = message_type_copy_done ∷ 0 ∷ 0 ∷ 0 ∷ []

unfoldable pub encode_copy_done : Bytes
unfolding copy_done_payload
encode_copy_done = frame copy_done_payload

unfoldable pub ready_for_query_payload : Bytes
ready_for_query_payload = message_type_ready_for_query ∷ 0 ∷ 0 ∷ 0 ∷ []

unfoldable pub encode_ready_for_query : Bytes
unfolding ready_for_query_payload
encode_ready_for_query = frame ready_for_query_payload
