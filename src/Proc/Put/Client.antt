-- ===== src/Proc/Put/Client.antt =====
-- The part of putFunc of cmd/client/main.go behind the request: what the client sends of its
-- standard input, and how it reads the answer.
use yproxy.Base.{
  ℕ, Option, none, some, List, [], ◌∷◌, ◌++◌, length, ltb, ◌==◌, if◌then◌else◌, ◌>>=◌,
}
use yproxy.Bytes.{Bytes}
use yproxy.Io.Packet.{ReadError, Read, ok, err, panic, read_packet}
use yproxy.Message.Kind.{message_type_put_complete, message_type_ready_for_query}
use yproxy.Message.CopyData as CopyData
use yproxy.Message.CopyDone.{encode_copy_done}
use yproxy.Message.PutComplete as PutComplete

-- A packet for each chunk that was read; a Read that gives no bytes sends nothing.
unfoldable pub send_chunks : List Bytes → Option Bytes
send_chunks [] = some []
send_chunks (c ∷ cs) = do
  packet ←
      if ltb 0 (length c) then CopyData.encode (record { sz = length c; bytes = c }) else some []
  rest ← send_chunks cs
  some (packet ++ rest)

-- The chunks until the end of the input, and the end of the copy.
unfoldable pub send_input : List Bytes → Option Bytes
send_input cs = send_chunks cs >>= λ sent. some (sent ++ encode_copy_done)

pub data Answer : Type 0 where
  key_version : ℕ → Answer
  no_answer : ReadError → Answer
  no_rfq : Answer
  panicked : Answer

-- The second packet has to be ReadyForQuery.
with_rfq : Read (ℕ × Bytes) → ℕ → Answer
with_rfq (ok p) version =
    if p.0 == message_type_ready_for_query then key_version version else no_rfq
with_rfq (err e) version = no_answer e
with_rfq panic version = panicked

-- The first packet has to be PutComplete, of which the key version is printed.
unfoldable pub read_answer : Bytes → Answer
unfolding with_rfq
read_answer conn = elim (read_packet conn).0 [
  | ok p ↦
      if p.0 == message_type_put_complete
      then elim (PutComplete.decode (record { key_version = 0 }) p.1) [
        | none ↦ panicked
        | some msg ↦ with_rfq (read_packet (read_packet conn).1).0 msg.key_version
      ]
      else no_rfq
  | err e ↦ no_answer e
  | panic ↦ panicked
]
