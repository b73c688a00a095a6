-- ===== src/Proc/Conn/Tests.antt =====
-- ProcConn and ReadPacket on small connections.
use yproxy.Base.{ℕ, ◌≡◌, ◌↔◌, true, false, [], ◌∷◌, ◌++◌, ◌+◌, ◌≤◌, arith, length}
use yproxy.Bytes.{Bytes}
use yproxy.Io.Packet.{ok, read_packet, max_msg_len}
use yproxy.Io.Packet.Sound.{read_packet_iff}
use yproxy.Message.Frame.{frame}
use yproxy.Message.CopyV2
use yproxy.Proc.Conn.{crashed, proc_conn}
use yproxy.Proc.Conn.Requests
use yproxy.Proc.Conn.Requests.{Request}
use yproxy.Proc.Conn.Malformed.{delete, tag, proc_conn_short}

abbrev copy : CopyV2.CopyMessageV2
copy = record {
  decrypt = true;
  encrypt = true;
  name = 97 ∷ 47 ∷ 98 ∷ [];
  old_cfg_path = 99 ∷ [];
  port = 5432;
  confirm = true;
  kek_decrypt = true;
  server_side_copy = false;
}

abbrev two_packets : Bytes
two_packets = 0 ∷ 0 ∷ 0 ∷ 0 ∷ 0 ∷ 0 ∷ 0 ∷ 10 ∷ 47 ∷ 1 ∷ 255 ∷ []

read_packet_iff_example : (read_packet two_packets ≡ (ok (47, 47 ∷ 1 ∷ []), 255 ∷ [])) ↔ (
    (more : Bytes) × (Path Bytes (47 ∷ 1 ∷ []) (47 ∷ more))
    × (two_packets ≡ frame (47 ∷ 1 ∷ []) ++ 255 ∷ [])
    × (length {A = ℕ} (47 ∷ 1 ∷ []) + 8 ≤ max_msg_len))
read_packet_iff_example = read_packet_iff two_packets (47 ∷ 1 ∷ []) (255 ∷ []) 47 (ground arith)

proc_conn_short_example :
    proc_conn (frame (tag delete ∷ 0 ∷ []) ++ two_packets) ≡ (crashed, two_packets)
proc_conn_short_example = proc_conn_short delete (0 ∷ []) two_packets (omega arith)
