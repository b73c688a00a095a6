-- ===== src/Message/CopyV2.antt =====
-- CopyMessageV2 of pkg/message/copy_message_v2.go.
use Prim.Native.Nat.{bit_and, bit_or}
use yproxy.Base.{
  if-true-false, flag-read, not, ℕ, ◌+◌, ◌^◌, ◌≡◌, ◌<◌, refl, Option, some, Bool, true, false, [],
  ◌∷◌, ◌++◌, arith, ◌==◌, if◌then◌else◌, length, get_elem?, ◌>>=◌,
}
use yproxy.Bytes.{
  Bytes, IsU64, add64, add64-eq-add, slice, slice-append, length-slice_from, u64, put_u64,
  u64-put_u64, slice-put_u64, get_elem?-slice_from,
}
use yproxy.Message.Frame.{frame}
use yproxy.Message.Kind.{message_type_copy_v2}

pub record CopyMessageV2 : Type 0 where
  pub decrypt : Bool
  pub encrypt : Bool
  pub name : Bytes
  pub old_cfg_path : Bytes
  pub port : ℕ
  pub confirm : Bool
  pub kek_decrypt : Bool
  pub server_side_copy : Bool

-- The bits of the flag byte.
abbrev copy_encrypt : ℕ
copy_encrypt = 1

abbrev copy_decrypt : ℕ
copy_decrypt = 2

abbrev copy_use_kek : ℕ
copy_use_kek = 4

abbrev copy_server_side : ℕ
copy_server_side = 8

abbrev pub empty : CopyMessageV2
empty = record {
  decrypt = false;
  encrypt = false;
  name = [];
  old_cfg_path = [];
  port = 0;
  confirm = false;
  kek_decrypt = false;
  server_side_copy = false;
}

-- flags |= bit, under a condition
abbrev add_flag : Bool → ℕ → ℕ → ℕ
add_flag b bit flags = if b then bit_or flags bit else flags

unfoldable pub flag_byte : Bool → Bool → Bool → Bool → ℕ
flag_byte decrypt encrypt kek_decrypt server_side_copy =
    add_flag server_side_copy copy_server_side (
      add_flag kek_decrypt copy_use_kek
        (add_flag encrypt copy_encrypt (add_flag decrypt copy_decrypt 0)))

-- flags & bit != 0
unfoldable pub has_flag : ℕ → ℕ → Bool
has_flag flags bit = not (bit_and flags bit == 0)

unfoldable pub payload : CopyMessageV2 → Bytes
payload c =
    message_type_copy_v2
    ∷ flag_byte c.decrypt c.encrypt c.kek_decrypt c.server_side_copy
    ∷ 0
    ∷ 0
    ∷ (put_u64 (length c.name)
        ++ (c.name
            ++ (put_u64 (length c.old_cfg_path)
                ++ (c.old_cfg_path ++ (put_u64 c.port ++ (if c.confirm then 1 else 0) ∷ [])))))

unfoldable pub encode : CopyMessageV2 → Bytes
encode c = frame (payload c)

unfoldable pub decode : CopyMessageV2 → Bytes → Option CopyMessageV2
decode c body = do
  flags ← get_elem? body 1
  name_len ← slice 4 12 body >>= u64
  let name_end = add64 12 name_len
  name ← slice 12 name_end body
  let conf = add64 name_end 8
  old_conf_len ← slice name_end conf body >>= u64
  let conf_end = add64 conf old_conf_len
  old_cfg_path ← slice conf conf_end body
  let ind = add64 conf_end 8
  port ← slice conf_end ind body >>= u64
  confirm ← get_elem? body ind
  some (record c {
    decrypt = if has_flag flags copy_decrypt then true else c.decrypt;
    encrypt = if has_flag flags copy_encrypt then true else c.encrypt;
    kek_decrypt = if has_flag flags copy_use_kek then true else c.kek_decrypt;
    server_side_copy = if has_flag flags copy_server_side then true else c.server_side_copy;
    name = name;
    old_cfg_path = old_cfg_path;
    port = port;
    confirm = if confirm == 1 then true else c.confirm;
  })

pub record IsSendable (m : CopyMessageV2) : Type 0 where
  pub port_fits : IsU64 m.port
  pub fits : length (payload m) < 2 ^ 63

-- Each test of the flag byte finds the flag that was put in.
flags_read :
    (d e k s : Bool)
    → (has_flag (flag_byte d e k s) copy_decrypt ≡ d)
      × (has_flag (flag_byte d e k s) copy_encrypt ≡ e)
      × (has_flag (flag_byte d e k s) copy_use_kek ≡ k)
      × (has_flag (flag_byte d e k s) copy_server_side ≡ s)
unfolding flag_byte has_flag
flags_read d e k s = ground arith

-- Decode gives back a sendable message that Encode wrote; its strings may hold any bytes.
pub decode-payload_copy_v2 : (m : CopyMessageV2) → IsSendable m → decode empty (payload m) ≡ some m
unfolding decode payload
decode-payload_copy_v2 m h =
    let last = (if m.confirm then 1 else 0) ∷ [] in
    let from_port = put_u64 m.port ++ last in
    let from_conf = put_u64 (length m.old_cfg_path) ++ (m.old_cfg_path ++ from_port) in
    let at_name = slice-put_u64 4 (payload m) (m.name ++ from_conf) (length m.name) refl in
    let name = slice-append 12 (12 + length m.name) (payload m) m.name from_conf at_name.1 refl in
    let at_conf =
      slice-put_u64 (12 + length m.name) (payload m) (m.old_cfg_path ++ from_port)
        (length m.old_cfg_path) name.1 in
    let conf = 12 + length m.name + 8 in
    let cfg =
      slice-append conf (conf + length m.old_cfg_path) (payload m) m.old_cfg_path from_port
        at_conf.1 refl in
    let at_port = slice-put_u64 (conf + length m.old_cfg_path) (payload m) last m.port cfg.1 in
    let ind = conf + length m.old_cfg_path + 8 in
    let size : ind + 1 < 2 ^ 63 =
      omega (arith, h.fits, length-slice_from ind (payload m) last at_port.1) in
    let flags = flags_read m.decrypt m.encrypt m.kek_decrypt m.server_side_copy in
    rw
      (
        at_name.0,
        u64-put_u64 (length m.name) (omega arith),
        add64-eq-add 12 (length m.name) (omega arith),
        name.0,
        add64-eq-add (12 + length m.name) 8 (omega arith),
        at_conf.0,
        u64-put_u64 (length m.old_cfg_path) (omega arith),
        add64-eq-add conf (length m.old_cfg_path) (omega arith),
        cfg.0,
        add64-eq-add (conf + length m.old_cfg_path) 8 (omega arith),
        at_port.0,
        u64-put_u64 m.port h.port_fits,
        get_elem?-slice_from ind (payload m) _ [] at_port.1,
      )
      (rw
        (
          flags.0,
          flags.1,
          flags.2,
          flags.3,
          if-true-false m.decrypt,
          if-true-false m.encrypt,
          if-true-false m.kek_decrypt,
          if-true-false m.server_side_copy,
          flag-read m.confirm,
        )
        refl)
