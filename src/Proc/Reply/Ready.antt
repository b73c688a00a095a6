-- ===== src/Proc/Reply/Ready.antt =====
-- A client whose connection takes everything that pkg/proc/interaction.go writes to it.
use yproxy.Base.{◌+◌, ◌≡◌, Option, none, [], ◌++◌, length}
use yproxy.Bytes.{Bytes}
use yproxy.Message.Frame.{frame}
use yproxy.Message.Kind.{MessageType, message_type_error, message_type_ready_for_query}
use yproxy.Message.Error as ErrorMessage
use yproxy.Io.Packet.{ok, read_packet}
use yproxy.Io.Packet.FirstByte.{read_packet_type}
use yproxy.Proc.Garbage.Mgr.{Error}
use yproxy.Proc.Reply.{reply_error}

abbrev pub takes : Bytes → Bytes → Option Error × Bytes
takes b sent = (none, sent ++ b)

-- The first packet that the client reads has the type.
abbrev pub BeginsWith : MessageType → Bytes → Type 0
BeginsWith tp sent = (body : Bytes) × (rest : Bytes) × (read_packet sent ≡ (ok (tp, body), rest))

abbrev pub IsReady : Bytes → Type 0
IsReady = BeginsWith message_type_ready_for_query

-- A reply of an error is taken for nothing else.
pub reply_error-BeginsWith :
    (error_text : Error → Bytes) (e : Error) (msg : Bytes) (tp : MessageType)
    → BeginsWith tp (reply_error error_text takes e msg [])
    → message_type_error ≡ tp
unfolding reply_error ErrorMessage.encode ErrorMessage.payload frame
reply_error-BeginsWith error_text e msg tp (body, rest, told) =
    let m : ErrorMessage.ErrorMessage = record { error = error_text e; message = msg } in
    read_packet_type (length (ErrorMessage.payload m) + 8) message_type_error tp _ body rest told
