-- ===== src/Message/ListV2.antt =====
-- ListMessageV2 of pkg/message/list_message_v2.go.
use yproxy.Base.{
  ◌+◌, ◌^◌, ◌≡◌, ◌<◌, refl, Option, some, List, [], ◌∷◌, ◌++◌, arith, length, length-append, ◌>>=◌,
}
use yproxy.Bytes.{
  Bytes, add64, add64-eq-add, slice_from, length-slice_from, put_u64, length-put_u64,
}
use yproxy.Message.Cstring.{get_cstring, get_cstring-append, slice_from-cstring, NoNul}
use yproxy.Message.Frame.{frame}
use yproxy.Message.Settings.{
  StorageSettings, put_settings, get_settings, get_settings-put, SettingsNoNul,
}
use yproxy.Message.Kind.{message_type_list_v2}

pub record ListMessageV2 : Type 0 where
  pub prefix : Bytes
  pub settings : List StorageSettings

abbrev pub empty : ListMessageV2
empty = record { prefix = []; settings = [] }

unfoldable pub payload : ListMessageV2 → Bytes
payload c =
    message_type_list_v2
    ∷ 0
    ∷ 0
    ∷ 0
    ∷ (c.prefix ++ 0 ∷ (put_u64 (length c.settings) ++ put_settings c.settings))

unfoldable pub encode : ListMessageV2 → Bytes
encode c = frame (payload c)

unfoldable pub decode : ListMessageV2 → Bytes → Option ListMessageV2
decode c body = do
  at_prefix ← slice_from 4 body
  let (prefix, off) = get_cstring at_prefix
  settings ← get_settings (add64 4 off) (add64 (add64 4 off) 8) body
  some (record c { prefix = prefix; settings = settings })

pub record IsSendable (m : ListMessageV2) : Type 0 where
  pub prefix_no_nul : NoNul m.prefix
  pub settings_no_nul : SettingsNoNul m.settings
  pub few_settings : length m.settings < 2 ^ 43
  pub fits : length (payload m) < 2 ^ 63

-- Decode gives back a sendable message that Encode wrote, its settings in order.
pub decode-payload_list_v2 : (m : ListMessageV2) → IsSendable m → decode empty (payload m) ≡ some m
unfolding decode payload
decode-payload_list_v2 m h =
    let tail = put_u64 (length m.settings) ++ put_settings m.settings in
    let at_settings = slice_from-cstring 4 (payload m) m.prefix tail refl in
    let small : 4 + (length m.prefix + 1) + 8 < 2 ^ 64 = omega (
      arith,
      h.fits,
      length-slice_from (4 + (length m.prefix + 1)) (payload m) tail at_settings,
      length-append {0} (put_u64 (length m.settings)) (put_settings m.settings),
      length-put_u64 (length m.settings),
    ) in
    rw
      (
        get_cstring-append m.prefix tail h.prefix_no_nul,
        add64-eq-add 4 (length m.prefix + 1) (omega arith),
        add64-eq-add (4 + (length m.prefix + 1)) 8 small,
        get_settings-put m.settings (payload m) _ _ h.settings_no_nul h.few_settings
            (omega (arith, h.fits)) at_settings refl,
      )
      refl
