-- ===== src/Proc/Reply.antt =====
-- ReplyError of pkg/client/client.go, and how the handlers of pkg/proc/interaction.go end with
-- ReadyForQuery.
pub mod Ready
use yproxy.Base.{Option, none, some}
use yproxy.Bytes.{Bytes, ascii}
use yproxy.Message.CopyDone.{encode_ready_for_query}
use yproxy.Message.Error as ErrorMessage
use yproxy.Proc.Effect.{Result, ok, err}
use yproxy.Proc.Garbage.Mgr.{Error}

abbrev pub failed_to_upload : Bytes
failed_to_upload = ascii "failed to upload"

-- `C` is the state of the client's connection, and `error_text` is err.Error().
module _ {C : Type 0} (error_text : Error → Bytes) (write : Bytes → C → Option Error × C) where
  -- ReplyError looks at no error of its Write.
  unfoldable pub reply_error : Error → Bytes → C → C
  reply_error e msg c =
      (write (ErrorMessage.encode (record { error = error_text e; message = msg })) c).1

  ready_written : Option Error × C → Result Error Unit × C
  unfolding reply_error
  ready_written (none, c) = (ok tt, c)
  ready_written (some e, c) = (err e, reply_error e failed_to_upload c)

  unfoldable pub ready : C → Result Error Unit × C
  unfolding ready_written
  ready c = ready_written (write encode_ready_for_query c)
