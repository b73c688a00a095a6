-- ===== src/Proc/List.antt =====
-- The answer to a list request: what ProcessListExtended of pkg/proc/interaction.go writes once the
-- storage has listed its objects and while the client takes it, and the loop of cmd/client/main.go
-- that reads the answer. Handler has the whole of ProcessListExtended.
pub mod RoundTrip
pub mod Handler
mod Tests
use yproxy.Base.{ℕ, zero, suc, List, [], ◌∷◌, ◌++◌, take, drop, length, ◌==◌, if◌then◌else◌}
use yproxy.Bytes.{Bytes}
use yproxy.Io.Packet.{ReadError, Read, ok, err, panic, read_packet}
use yproxy.Message.Kind.{MessageType, message_type_object_meta, message_type_ready_for_query}
use yproxy.Message.ObjectMeta as ObjectMeta
use yproxy.Message.ObjectMeta.{ObjectInfo, Decoded, done, panicked, out_of_fuel}
use yproxy.Message.CopyDone.{encode_ready_for_query}

abbrev pub chunk_size : ℕ
chunk_size = 1000

-- What the loop writes in chunks of `k` objects; each takes one unit of fuel.
unfoldable pub write_chunks : ℕ → ℕ → List ObjectInfo → Bytes
write_chunks k zero objects = []
write_chunks k (suc fuel) [] = []
write_chunks k (suc fuel) (o ∷ objects) =
    let rest = write_chunks k fuel (drop k (o ∷ objects)) in
    ObjectMeta.encode (record { content = take k (o ∷ objects) }) ++ rest

unfoldable pub list_reply : List ObjectInfo → Bytes
unfolding write_chunks
list_reply objects = write_chunks chunk_size (length objects) objects ++ encode_ready_for_query

pub data Listing : Type 0 where
  listed : List ObjectInfo → Listing
  read_failed : ReadError → Listing
  incorrect_type : MessageType → Listing
  crashed : Listing
  unfinished : Listing

-- for !done; `unfinished` is the end of the fuel.
unfoldable pub read_listing : ℕ → Bytes → List ObjectInfo → Listing
read_listing zero conn res = unfinished
read_listing (suc fuel) conn res =
    let conn' = (read_packet conn).1 in
    elim (read_packet conn).0 [
      | ok p ↦
          if p.0 == message_type_object_meta
          then elim (ObjectMeta.decode p.1) [
            | done m ↦ read_listing fuel conn' (res ++ m.content)
            | panicked ↦ crashed
            | out_of_fuel ↦ unfinished
          ]
          else if p.0 == message_type_ready_for_query
          then listed res
          else incorrect_type p.0
      | err e ↦ read_failed e
      | panic ↦ crashed
    ]
