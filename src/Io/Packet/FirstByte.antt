-- ===== src/Io/Packet/FirstByte.antt =====
-- The type of a packet that ReadPacket of pkg/io/proto_reader.go returns.
use yproxy.Base.{ℕ, ◌-◌, ◌≡◌, sym, ap, ◌∙◌, ◌∷◌, ◌++◌}
use yproxy.Bytes.{Bytes, put_u64, length-put_u64}
use yproxy.Message.Kind.{MessageType}
use yproxy.Io.Packet.{ok, read_full, with_length, read_packet, read_full-append}
use yproxy.Io.Packet.Sound.{read_full_ok, with_length_ok, with_type_ok}

-- Whatever length is in front, the packet has the type of the byte behind it.
pub read_packet_type :
    (n : ℕ) (tp tp' : MessageType) (body b rest : Bytes)
    → read_packet (put_u64 n ++ (tp ∷ body)) ≡ (ok (tp', b), rest)
    → tp ≡ tp'
unfolding read_packet
read_packet_type n tp tp' body b rest h =
    let split = read_full-append (put_u64 n) (tp ∷ body) 8 (sym (length-put_u64 n)) in
    let k : with_length (ok (put_u64 n), tp ∷ body) ≡ (ok (tp', b), rest) =
      sym (ap with_length split) ∙ h in
    let (v, num, small, big, typed) = with_length_ok (put_u64 n) (tp ∷ body) b rest tp' k in
    let (more, head, read) = with_type_ok (read_full (v - 8) (tp ∷ body)) b rest tp' typed in
    let (inner, size) = read_full_ok (v - 8) (tp ∷ body) b rest read in
    let same : tp ∷ body ≡ tp' ∷ (more ++ rest) = inner ∙ ap (λ (c : Bytes). c ++ rest) head in cc
