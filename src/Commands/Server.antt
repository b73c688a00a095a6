-- ===== src/Commands/Server.antt =====
-- A connection of a client as the server serves it: ProcConn of pkg/proc/interaction.go with the
-- handlers of deletions. The client takes what it is sent. `others` are the remaining handlers.
use yproxy.Base.{[]}
use yproxy.Bytes.{Bytes, ascii}
use yproxy.Io.Packet.{ReadError}
use yproxy.Message.Kind.{MessageType}
use yproxy.Proc.Garbage.Mgr.{BasicGarbageMgr, Error}
use yproxy.Proc.Conn.{
  Call, Outcome, call, replied_error, unsupported, crashed, proc_conn, process_delete_extended,
  process_delete2_extended, process_untrashify,
}
use yproxy.Proc.Reply.{reply_error}
use yproxy.Proc.Reply.Ready.{takes}
use yproxy.Proc.Deletion as Deletion

module _ {W : Type 0} (error_text : Error → Bytes) (dh : BasicGarbageMgr W)
    (others : Call → W → Bytes × W) (read_error : ReadError → Error)
    (wrong_type : MessageType → Error) where
  unfoldable pub serve_call : Call → W → Bytes × W
  serve_call (process_delete_extended m) w =
      let (_, sent, w') = Deletion.process_delete_extended error_text takes dh m [] w in (sent, w')
  serve_call (process_delete2_extended m) w =
      let (_, sent, w') = Deletion.process_delete2_extended error_text takes dh m [] w in (sent, w')
  serve_call (process_untrashify m) w =
      let (_, sent, w') = Deletion.process_untrashify error_text takes dh m [] w in (sent, w')
  serve_call c w = others c w

  unfoldable pub serve_outcome : Outcome → W → Bytes × W
  unfolding serve_call
  serve_outcome (call c) w = serve_call c w
  serve_outcome (replied_error e) w =
      (reply_error error_text takes (read_error e) (ascii "failed to read request packet") [], w)
  serve_outcome (unsupported tp) w = (
    reply_error error_text takes (wrong_type tp) (ascii "message is unsupported in ProcConn") [],
    w,
  )
  serve_outcome crashed w = ([], w)

  -- What the client is sent, before the connection is closed.
  unfoldable pub serve : Bytes → W → Bytes × W
  unfolding serve_outcome
  serve conn w = serve_outcome (proc_conn conn).0 w
