-- ===== src/Message/CatV2.antt =====
-- CatMessageV2 of pkg/message/cat_message_v2.go.
use yproxy.Base.{
  ℕ, ◌+◌, ◌^◌, ◌≡◌, ◌<◌, refl, Option, some, Bool, true, false, List, [], ◌∷◌, ◌++◌, arith, ◌==◌,
  if◌then◌else◌, length, length-append, get_elem?, ◌>>=◌,
}
use yproxy.Bytes.{
  Bytes, IsU64, add64, add64-eq-add, slice_from, length-slice_from, u64, put_u64,
  u64-put_u64_append, length-put_u64, slice-put_u64,
}
use yproxy.Message.Cstring.{get_cstring, get_cstring-append, slice_from-cstring, NoNul}
use yproxy.Message.Frame.{frame}
use yproxy.Message.Settings.{
  StorageSettings, put_settings, get_settings, get_settings-put, SettingsNoNul,
}
use yproxy.Message.Kind.{
  message_type_cat_v2, decrypt_message, no_decrypt_message, use_kek, no_use_kek,
}

pub record CatMessageV2 : Type 0 where
  pub decrypt : Bool
  pub kek : Bool
  pub name : Bytes
  pub start_offset : ℕ
  pub settings : List StorageSettings

abbrev pub empty : CatMessageV2
empty = record { decrypt = false; kek = false; name = []; start_offset = 0; settings = [] }

unfoldable pub payload : CatMessageV2 → Bytes
payload c =
    message_type_cat_v2
    ∷ (if c.decrypt then decrypt_message else no_decrypt_message)
    ∷ (if c.kek then use_kek else no_use_kek)
    ∷ 0
    ∷ (c.name
        ++ 0 ∷ (put_u64 c.start_offset ++ (put_u64 (length c.settings) ++ put_settings c.settings)))

unfoldable pub encode : CatMessageV2 → Bytes
encode c = frame (payload c)

unfoldable pub decode : CatMessageV2 → Bytes → Option CatMessageV2
decode c body = do
  at_name ← slice_from 4 body
  let (name, off) = get_cstring at_name
  decrypt ← get_elem? body 1
  kek ← get_elem? body 2
  start_offset ← slice_from (4 + length name + 1) body >>= u64
  settings ← get_settings (add64 12 off) (add64 (add64 (add64 4 off) 8) 8) body
  some (record c {
    decrypt = if decrypt == decrypt_message then true else c.decrypt;
    kek = if kek == use_kek then true else c.kek;
    name = name;
    start_offset = start_offset;
    settings = settings;
  })

pub record IsSendable (m : CatMessageV2) : Type 0 where
  pub name_no_nul : NoNul m.name
  pub offset_fits : IsU64 m.start_offset
  pub settings_no_nul : SettingsNoNul m.settings
  pub few_settings : length m.settings < 2 ^ 43
  pub fits : length (payload m) < 2 ^ 63

-- Decode gives back a sendable message that Encode wrote, its settings in order.
pub decode-payload_cat_v2 : (m : CatMessageV2) → IsSendable m → decode empty (payload m) ≡ some m
unfolding decode payload
decode-payload_cat_v2 m h =
    let counted = put_u64 (length m.settings) ++ put_settings m.settings in
    let tail = put_u64 m.start_offset ++ counted in
    let at_offset = slice_from-cstring 4 (payload m) m.name tail refl in
    let at_settings =
      slice-put_u64 (4 + (length m.name + 1)) (payload m) counted m.start_offset at_offset in
    let place : 4 + length m.name + 1 ≡ 4 + (length m.name + 1) = omega arith in
    let again : 12 + (length m.name + 1) ≡ 4 + (length m.name + 1) + 8 = omega arith in
    let small : 4 + (length m.name + 1) + 8 + 8 < 2 ^ 64 = omega (
      arith,
      h.fits,
      length-slice_from (4 + (length m.name + 1) + 8) (payload m) counted at_settings.1,
      length-append {0} (put_u64 (length m.settings)) (put_settings m.settings),
      length-put_u64 (length m.settings),
    ) in
    rw
      (
        get_cstring-append m.name tail h.name_no_nul,
        place,
        at_offset,
        u64-put_u64_append m.start_offset counted h.offset_fits,
        add64-eq-add 12 (length m.name + 1) (omega arith),
        again,
        add64-eq-add 4 (length m.name + 1) (omega arith),
        add64-eq-add (4 + (length m.name + 1)) 8 (omega arith),
        add64-eq-add (4 + (length m.name + 1) + 8) 8 small,
        get_settings-put m.settings (payload m) _ _ h.settings_no_nul h.few_settings
            (omega (arith, h.fits)) at_settings.1 refl,
      )
      (ground arith)
