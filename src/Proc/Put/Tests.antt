-- ===== src/Proc/Put/Tests.antt =====
-- Uploads to a storage that keeps what it reads to the end of a stream.
use yproxy.Base.{
  ℕ, ◌≡◌, ◌≢◌, refl, true, false, Option, none, some, List, [], ◌∷◌, ◌++◌, arith, if◌then◌else◌,
}
use yproxy.Bytes.{Bytes}
use yproxy.Message.CopyDone.{encode_copy_done}
use yproxy.Io.Packet.{eof, read_packet}
use yproxy.Yio.Writer.{Limiter, YproxyWriter, new_yproxy_writer}
use yproxy.Yio.Writer.Pipe.{Pipe, pipe, opened}
use yproxy.Proc.Put.{
  Crypter, PutFileToDest, stored, waits, replied, reply, hangs, out_of_fuel, PutRequest, put_reply,
  upload, process_put_extended,
}
use yproxy.Proc.Put.Client.{send_input, read_answer, key_version}
use yproxy.Proc.Put.Upload.{chunk_packets}
use yproxy.Proc.Put.Stored.{send_input-process_put_extended}
use yproxy.Proc.Put.Broken.{
  process_put_extended_cut, process_put_extended-no_crypter, upload-ne-out_of_fuel,
}

abbrev Objects : Type 0
Objects = List (Bytes × Bytes)

abbrev keep : PutFileToDest Objects ℕ
keep name p settings objects =
    if p.closed then (stored, (name, p.content) ∷ objects) else (waits, objects)

abbrev plain_request : PutRequest
plain_request = record { name = 97 ∷ []; encrypt = false; settings = []; reply_kv = true }

abbrev secret_request : PutRequest
secret_request = record plain_request { encrypt = true }

abbrev no_crypter : Option (Crypter (YproxyWriter Pipe) Unit ℕ)
no_crypter = none

abbrev burst_of : ℕ → Limiter ℕ
burst_of n = record { burst = n; wait_n = λ _. none }

abbrev takes : Bytes → Option ℕ
takes b = none

abbrev chunks : List Bytes
chunks = (1 ∷ 2 ∷ 3 ∷ []) ∷ (4 ∷ []) ∷ []

send_input-process_put_extended_example :
    (sent : Bytes) × (send_input chunks ≡ some sent)
    × (process_put_extended keep 0 1 (some (burst_of 3)) takes plain_request no_crypter sent []
        ≡ (replied (put_reply true), (97 ∷ [], 1 ∷ 2 ∷ 3 ∷ 4 ∷ []) ∷ []))
    × (read_answer (put_reply true) ≡ key_version 1)
send_input-process_put_extended_example =
    send_input-process_put_extended keep 0 1 (some (burst_of 3)) takes plain_request no_crypter
      chunks [] ((97 ∷ [], 1 ∷ 2 ∷ 3 ∷ 4 ∷ []) ∷ []) refl refl (ground arith) (ground arith)
      (λ b. refl) refl

process_put_extended_cut_example :
    process_put_extended keep 0 1 none
        (λ b. some 9)
        plain_request
        no_crypter
        (chunk_packets chunks ++ [])
        []
      ≡ (reply (λ b. some 9) true, (97 ∷ [], 1 ∷ 2 ∷ 3 ∷ 4 ∷ []) ∷ [])
    × (process_put_extended keep 0 1 none
          (λ b. some 9)
          plain_request
          no_crypter
          (chunk_packets chunks ++ encode_copy_done)
          []
        ≡ (reply (λ b. some 9) true, (97 ∷ [], 1 ∷ 2 ∷ 3 ∷ 4 ∷ []) ∷ []))
unfolding read_packet
process_put_extended_cut_example =
    process_put_extended_cut keep 0 1 none (λ b. some 9) plain_request no_crypter chunks [] eof []
      ((97 ∷ [], 1 ∷ 2 ∷ 3 ∷ 4 ∷ []) ∷ []) refl (ground arith) (tt, (tt, tt)) refl refl

keep-open :
    (name : Bytes) (p : Pipe) (objects : Objects)
    → p.closed ≡ false
    → keep name p [] objects ≡ (waits, objects)
keep-open name p objects h = rw h refl

process_put_extended-no_crypter_example :
    process_put_extended {V = Unit} keep 0 1 none takes secret_request none
      (chunk_packets chunks)
      []
    ≡ (hangs, [])
process_put_extended-no_crypter_example =
    process_put_extended-no_crypter keep 0 1 none takes Unit secret_request (chunk_packets chunks)
      [] refl keep-open

upload-ne-out_of_fuel_example :
    (upload (new_yproxy_writer 0 none (pipe 1)) 5 false no_crypter (0 ∷ 0 ∷ 0 ∷ 0 ∷ []) opened).0
    ≢ some out_of_fuel
upload-ne-out_of_fuel_example =
    upload-ne-out_of_fuel (new_yproxy_writer 0 none (pipe 1)) false no_crypter (0 ∷ 0 ∷ 0 ∷ 0 ∷ [])
      opened
