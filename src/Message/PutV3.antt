-- ===== src/Message/PutV3.antt =====
-- PutMessageV3 of pkg/message/put_message_v3.go.
use yproxy.Base.{
  ◌+◌, ◌^◌, ◌≡◌, ◌<◌, refl, Option, some, Bool, true, false, List, [], ◌∷◌, ◌++◌, arith, ◌==◌,
  if◌then◌else◌, length, length-append, get_elem?, ◌>>=◌,
}
use yproxy.Bytes.{
  Bytes, add64, add64-eq-add, slice_from, length-slice_from, put_u64, length-put_u64,
}
use yproxy.Message.Cstring.{get_cstring, get_cstring-append, slice_from-cstring, NoNul}
use yproxy.Message.Frame.{frame}
use yproxy.Message.Settings.{
  StorageSettings, put_settings, get_settings, get_settings-put, SettingsNoNul,
}
use yproxy.Message.Kind.{message_type_put_v3, encrypt_message, no_encrypt_message}

pub record PutMessageV3 : Type 0 where
  pub encrypt : Bool
  pub name : Bytes
  pub settings : List StorageSettings

abbrev pub empty : PutMessageV3
empty = record { encrypt = false; name = []; settings = [] }

unfoldable pub payload : PutMessageV3 → Bytes
payload c =
    message_type_put_v3
    ∷ (if c.encrypt then encrypt_message else no_encrypt_message)
    ∷ 0
    ∷ 0
    ∷ (c.name ++ 0 ∷ (put_u64 (length c.settings) ++ put_settings c.settings))

unfoldable pub encode : PutMessageV3 → Bytes
encode c = frame (payload c)

unfoldable pub decode : PutMessageV3 → Bytes → Option PutMessageV3
decode c body = do
  flag ← get_elem? body 1
  at_name ← slice_from 4 body
  let (name, off) = get_cstring at_name
  settings ← get_settings (add64 4 off) (add64 (add64 4 off) 8) body
  some (record c {
    encrypt = if flag == encrypt_message then true else c.encrypt;
    name = name;
    settings = settings;
  })

-- What a message must meet to survive the wire: no NUL in its strings, and a body that Go can
-- hold in a slice.
pub record IsSendable (m : PutMessageV3) : Type 0 where
  pub name_no_nul : NoNul m.name
  pub settings_no_nul : SettingsNoNul m.settings
  pub few_settings : length m.settings < 2 ^ 43
  pub fits : length (payload m) < 2 ^ 63

-- Decode gives back a sendable message that Encode wrote, its settings in order.
pub decode-payload_put_v3 : (m : PutMessageV3) → IsSendable m → decode empty (payload m) ≡ some m
unfolding decode payload
decode-payload_put_v3 m h =
    let tail = put_u64 (length m.settings) ++ put_settings m.settings in
    let at_settings = slice_from-cstring 4 (payload m) m.name tail refl in
    let small : 4 + (length m.name + 1) + 8 < 2 ^ 64 = omega (
      arith,
      h.fits,
      length-slice_from (4 + (length m.name + 1)) (payload m) tail at_settings,
      length-append {0} (put_u64 (length m.settings)) (put_settings m.settings),
      length-put_u64 (length m.settings),
    ) in
    rw
      (
        get_cstring-append m.name tail h.name_no_nul,
        add64-eq-add 4 (length m.name + 1) (omega arith),
        add64-eq-add (4 + (length m.name + 1)) 8 small,
        get_settings-put m.settings (payload m) _ _ h.settings_no_nul h.few_settings
            (omega (arith, h.fits)) at_settings refl,
      )
      (ground arith)
