-- ===== src/Proc/Put.antt =====
-- ProcessPutExtended of pkg/proc/interaction.go: a goroutine takes the client's packets into a
-- pipe, and the storage reads the object from the other end.
pub mod Client
pub mod Upload
pub mod Stored
pub mod Broken
mod Tests
use yproxy.Base.{
  ℕ, zero, suc, Bool, true, false, Option, none, some, List, [], ◌++◌, length, ◌==◌, if◌then◌else◌,
}
use yproxy.Bytes.{Bytes}
use yproxy.Io.Packet.{ReadError, Read, ok, err, panic, read_packet}
use yproxy.Message.Kind.{MessageType, message_type_copy_data, message_type_copy_done}
use yproxy.Message.CopyData as CopyData
use yproxy.Message.CopyDone.{encode_ready_for_query}
use yproxy.Message.PutComplete as PutComplete
use yproxy.Message.Settings.{StorageSettings}
use yproxy.Yio.Writer.{WriteCloser, Limiter, YproxyWriter, new_yproxy_writer}
use yproxy.Yio.Writer.Pipe.{Pipe, pipe, opened}

-- Why the goroutine's loop ended.
pub data Ended (E : Type 0) : Type 0 where
  done : Ended E
  read_failed : ReadError → Ended E
  foreign : MessageType → Ended E
  write_failed : E → Ended E
  unfull_write : Ended E
  crashed out_of_fuel : Ended E

-- The loop of the goroutine, over the writer that it was given. Each packet takes one unit of fuel.
unfoldable pub upload_loop : {W E : Type 0} → WriteCloser W E → ℕ → Bytes → W → Ended E × Bytes × W
upload_loop ww zero conn w = (out_of_fuel, conn, w)
upload_loop ww (suc fuel) conn w =
    let conn' = (read_packet conn).1 in
    elim (read_packet conn).0 [
      | ok p ↦
          if p.0 == message_type_copy_data
          then elim (CopyData.decode CopyData.empty p.1) [
            | none ↦ (crashed, conn', w)
            | some msg ↦
                let (res, w') = ww.write msg.bytes w in
                elim res.1 [
                  | some e ↦ (write_failed e, conn', w')
                  | none ↦
                      let rest = upload_loop ww fuel conn' w' in
                      if res.0 == msg.sz then rest else (unfull_write, conn', w')
                ]
          ]
          else if p.0 == message_type_copy_done
          then (done, conn', w)
          else (foreign p.0, conn', w)
      | err e ↦ (read_failed e, conn', w)
      | panic ↦ (crashed, conn', w)
    ]

-- crypt.Crypter: `start` is Encrypt, which gives a writer above the one it is given, or an error.
pub record Crypter (W V E : Type 0) : Type 0 where
  pub start : W → Option V
  pub writer : WriteCloser V E
  pub below : V → W

module _ {W E : Type 0} (w : WriteCloser W E) where
  -- The deferred closing, where the chunks are not encrypted.
  closed_plain : Ended E × Bytes × W → Option (Ended E) × Bytes × W
  closed_plain (u, conn, y) = (some u, conn, (w.close y).1)

module _ {W V E : Type 0} (w : WriteCloser W E) where
  -- The deferred closing of the encrypting writer, and of the one below it if that went well.
  closed_encrypted : Crypter W V E → Ended E × Bytes × V → Option (Ended E) × Bytes × W
  closed_encrypted c (u, conn, v) =
      let (e, v') = c.writer.close v in
      let y = c.below v' in (some u, conn, elim e [ some _ ↦ y | none ↦ (w.close y).1 ])

  -- The goroutine: it does not start its loop without a crypter, or where that fails.
  unfoldable pub upload :
      ℕ → Bool → Option (Crypter W V E) → Bytes → W → Option (Ended E) × Bytes × W
  unfolding closed_plain closed_encrypted
  upload fuel false cr conn y = closed_plain w (upload_loop w fuel conn y)
  upload fuel true none conn y = (none, conn, y)
  upload fuel true (some c) conn y = elim (c.start y) [
    | none ↦ (none, conn, y)
    | some v ↦ closed_encrypted c (upload_loop c.writer fuel conn v)
  ]

-- What PutFileToDest does with the stream that it reads: `waits` if it waits for more of it.
pub data Put (E : Type 0) : Type 0 where
  stored : Put E
  failed : E → Put E
  waits : Put E

-- PutFileToDest of the storage: the name, the stream and the settings.
abbrev pub PutFileToDest : Type 0 → Type 0 → Type 0
PutFileToDest S E = Bytes → Pipe → List StorageSettings → S → Put E × S

-- How the handler ends: with a reply to the client and nil, with the error of the storage or of
-- the reply, with both goroutines waiting for each other, or with a panic of the server.
pub data Outcome (E : Type 0) : Type 0 where
  replied : Bytes → Outcome E
  put_failed : E → Outcome E
  reply_failed : E → Outcome E
  hangs : Outcome E
  panicked : Outcome E

-- SingleKeyEncryption of pkg/crypt is 1.
unfoldable pub put_reply : Bool → Bytes
put_reply true = PutComplete.encode (record { key_version = 1 }) ++ encode_ready_for_query
put_reply false = encode_ready_for_query

pub record PutRequest : Type 0 where
  pub name : Bytes
  pub encrypt : Bool
  pub settings : List StorageSettings
  pub reply_kv : Bool

module _ {E : Type 0} (write : Bytes → Option E) where
  -- The writes of the reply, the last of which is ReadyForQuery; `write` is the client's Write.
  unless_failed : Option E → Outcome E → Outcome E
  unless_failed none o = o
  unless_failed (some e) o = reply_failed e

  ready_reply : Bool → Outcome E
  unfolding unless_failed
  ready_reply reply_kv = unless_failed (write encode_ready_for_query) (replied (put_reply reply_kv))

  unfoldable pub reply : Bool → Outcome E
  unfolding ready_reply
  reply false = ready_reply false
  reply true =
      unless_failed (write (PutComplete.encode (record { key_version = 1 }))) (ready_reply true)

  pub put_result : {S : Type 0} → Bool → Put E × S → Outcome E × S
  unfolding reply
  put_result reply_kv (stored, s) = (reply reply_kv, s)
  put_result reply_kv (failed e, s) = (put_failed e, s)
  put_result reply_kv (waits, s) = (hangs, s)

module _ {S E : Type 0} (put_file_to_dest : PutFileToDest S E) (write : Bytes → Option E) where
  -- The storage has the whole stream before the goroutine is waited for.
  pub put_end : PutRequest → Option (Ended E) × Bytes × YproxyWriter Pipe → S → Outcome E × S
  unfolding put_result
  put_end req (some crashed, conn, y) s = (panicked, s)
  put_end req (ended, conn, y) s =
      put_result write req.reply_kv (put_file_to_dest req.name y.under req.settings s)

module _ {S V E : Type 0} (put_file_to_dest : PutFileToDest S E) (empty_buffer closed_pipe : E)
    (lim : Option (Limiter E)) (write : Bytes → Option E) where
  -- ProcessPutExtended. A loop over the packets of `conn` needs
  -- no more fuel than it has bytes, and one.
  unfoldable pub process_put_extended :
      PutRequest → Option (Crypter (YproxyWriter Pipe) V E) → Bytes → S → Outcome E × S
  unfolding put_end
  process_put_extended req cr conn s =
      put_end put_file_to_dest write req
        (upload (new_yproxy_writer empty_buffer lim (pipe closed_pipe)) (suc (length conn))
          req.encrypt cr conn opened)
        s
