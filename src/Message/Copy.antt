-- ===== src/Message/Copy.antt =====
-- CopyMessage of pkg/message/copy_message.go.
use yproxy.Base.{
  ℕ, ◌+◌, ◌^◌, ◌≡◌, ◌<◌, refl, Option, some, Bool, true, false, [], ◌∷◌, ◌++◌, arith, ◌==◌,
  if◌then◌else◌, length, get_elem?, ◌>>=◌,
}
use yproxy.Bytes.{
  Bytes, IsU64, add64, add64-eq-add, slice, slice-append, length-slice_from, u64, put_u64,
  u64-put_u64, slice-put_u64, get_elem?-slice_from,
}
use yproxy.Message.Frame.{frame}
use yproxy.Message.Kind.{
  message_type_copy, decrypt_message, no_decrypt_message, encrypt_message, no_encrypt_message,
}

pub record CopyMessage : Type 0 where
  pub decrypt : Bool
  pub encrypt : Bool
  pub name : Bytes
  pub old_cfg_path : Bytes
  pub port : ℕ
  pub confirm : Bool

abbrev pub empty : CopyMessage
empty = record {
  decrypt = false;
  encrypt = false;
  name = [];
  old_cfg_path = [];
  port = 0;
  confirm = false;
}

unfoldable pub payload : CopyMessage → Bytes
payload c =
    message_type_copy
    ∷ (if c.decrypt then decrypt_message else no_decrypt_message)
    ∷ (if c.encrypt then encrypt_message else no_encrypt_message)
    ∷ 0
    ∷ (put_u64 (length c.name)
        ++ (c.name
            ++ (put_u64 (length c.old_cfg_path)
                ++ (c.old_cfg_path ++ (put_u64 c.port ++ (if c.confirm then 1 else 0) ∷ [])))))

unfoldable pub encode : CopyMessage → Bytes
encode c = frame (payload c)

unfoldable pub decode : CopyMessage → Bytes → Option CopyMessage
decode c body = do
  decrypt ← get_elem? body 1
  encrypt ← get_elem? body 2
  name_len ← slice 4 12 body >>= u64
  let name_end = add64 12 name_len
  name ← slice 12 name_end body
  let conf = add64 name_end 8
  old_conf_len ← slice name_end conf body >>= u64
  let conf_end = add64 conf old_conf_len
  old_cfg_path ← slice conf conf_end body
  let ind = add64 conf_end 8
  port ← slice conf_end ind body >>= u64
  confirm ← get_elem? body ind
  some (record c {
    decrypt = if decrypt == decrypt_message then true else c.decrypt;
    encrypt = if encrypt == encrypt_message then true else c.encrypt;
    name = name;
    old_cfg_path = old_cfg_path;
    port = port;
    confirm = if confirm == 1 then true else c.confirm;
  })

pub record IsSendable (m : CopyMessage) : Type 0 where
  pub port_fits : IsU64 m.port
  pub fits : length (payload m) < 2 ^ 63

-- Decode gives back a sendable message that Encode wrote; its strings may hold any bytes.
pub decode-payload_copy : (m : CopyMessage) → IsSendable m → decode empty (payload m) ≡ some m
unfolding decode payload
decode-payload_copy m h =
    let last = (if m.confirm then 1 else 0) ∷ [] in
    let from_port = put_u64 m.port ++ last in
    let from_conf = put_u64 (length m.old_cfg_path) ++ (m.old_cfg_path ++ from_port) in
    let at_name = slice-put_u64 4 (payload m) (m.name ++ from_conf) (length m.name) refl in
    let name = slice-append 12 (12 + length m.name) (payload m) m.name from_conf at_name.1 refl in
    let at_conf =
      slice-put_u64 (12 + length m.name) (payload m) (m.old_cfg_path ++ from_port)
        (length m.old_cfg_path) name.1 in
    let conf = 12 + length m.name + 8 in
    let cfg =
      slice-append conf (conf + length m.old_cfg_path) (payload m) m.old_cfg_path from_port
        at_conf.1 refl in
    let at_port = slice-put_u64 (conf + length m.old_cfg_path) (payload m) last m.port cfg.1 in
    let ind = conf + length m.old_cfg_path + 8 in
    let size : ind + 1 < 2 ^ 63 =
      omega (arith, h.fits, length-slice_from ind (payload m) last at_port.1) in
    rw
      (
        at_name.0,
        u64-put_u64 (length m.name) (omega arith),
        add64-eq-add 12 (length m.name) (omega arith),
        name.0,
        add64-eq-add (12 + length m.name) 8 (omega arith),
        at_conf.0,
        u64-put_u64 (length m.old_cfg_path) (omega arith),
        add64-eq-add conf (length m.old_cfg_path) (omega arith),
        cfg.0,
        add64-eq-add (conf + length m.old_cfg_path) 8 (omega arith),
        at_port.0,
        u64-put_u64 m.port h.port_fits,
        get_elem?-slice_from ind (payload m) _ [] at_port.1,
      )
      (ground arith)
