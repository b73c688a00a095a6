-- ===== src/Message/Settings.antt =====
-- The storage settings that several requests carry (pkg/settings/settings.go): the loops that
-- write and read them, the same in PutMessageV2, PutMessageV3, CatMessageV2 and ListMessageV2.
use yproxy.Base.{
  ℕ, zero, suc, ◌+◌, ◌^◌, ◌≡◌, ◌<◌, refl, Option, none, some, List, [], ◌∷◌, ◌++◌, arith, ltb,
  lt→ltb, if◌then◌else◌, length, length-append, All, append_assoc, append-nil, ◌>>=◌,
}
use yproxy.Bytes.{
  Bytes, add64, slice, slice_from, length-slice_from, u64, put_u64, u64-put_u64, slice-put_u64,
}
use yproxy.Message.Cstring.{get_cstring, get_cstring-append, slice_from-cstring, NoNul}

pub record StorageSettings : Type 0 where
  pub name : Bytes
  pub value : Bytes

-- for _, s := range c.Settings
unfoldable pub put_settings : List StorageSettings → Bytes
put_settings [] = []
put_settings (s ∷ ss) = s.name ++ 0 ∷ (s.value ++ 0 ∷ put_settings ss)

-- `totalOff` is the offset reached in the body.
settings_loop : ℕ → Bytes → ℕ → Option (List StorageSettings)
settings_loop zero body total_off = some []
settings_loop (suc n) body total_off = do
  at_name ← slice_from total_off body
  let (name, name_off) = get_cstring at_name
  at_value ← slice_from (add64 total_off name_off) body
  let (value, value_off) = get_cstring at_value
  more ← settings_loop n body (add64 (add64 total_off name_off) value_off)
  some (record { name = name; value = value } ∷ more)

-- The number of settings is read at body[lo:hi], and the settings behind it.
-- `make([]settings.StorageSettings, settLen)` fails where its elements, of 32 bytes each, do not fit
-- in the 2 ^ 48 bytes of the address space.
unfoldable pub get_settings : ℕ → ℕ → Bytes → Option (List StorageSettings)
unfolding settings_loop
get_settings lo hi body = do
  sett_buf ← slice lo hi body
  sett_len ← u64 sett_buf
  if ltb sett_len (2 ^ 43) then settings_loop sett_len body hi else none

abbrev pub SettingsNoNul : List StorageSettings → Type 0
SettingsNoNul = All (λ s. NoNul s.name × NoNul s.value)

-- Behind a string that was read at `off`, the offset does not wrap and the body goes on.
next_offset :
    (off : ℕ) (body s rest : Bytes)
    → length body < 2 ^ 64
    → slice_from off body ≡ some (s ++ 0 ∷ rest)
    → (add64 off (length s + 1) ≡ off + (length s + 1))
      × (slice_from (off + (length s + 1)) body ≡ some rest)
unfolding add64
next_offset off body s rest fits h = (
  omega (arith, length-slice_from off body _ h, length-append {0} s (0 ∷ rest)),
  slice_from-cstring off body s rest h,
)

settings_loop-put :
    (ss : List StorageSettings) (body post : Bytes) (off : ℕ)
    → SettingsNoNul ss
    → length body < 2 ^ 64
    → slice_from off body ≡ some (put_settings ss ++ post)
    → settings_loop (length ss) body off ≡ some ss
unfolding settings_loop put_settings
settings_loop-put [] body post off n fits h = refl
settings_loop-put (s ∷ ss) body post off n fits h =
    let here : slice_from off body
        ≡ some (s.name ++ 0 ∷ (s.value ++ 0 ∷ (put_settings ss ++ post))) =
      simp append_assoc at h in
    let on_value = next_offset off body s.name _ fits here in
    let on_next = next_offset (off + (length s.name + 1)) body s.value _ fits on_value.1 in
    let name = get_cstring-append s.name (s.value ++ 0 ∷ (put_settings ss ++ post)) n.0.0 in
    let value = get_cstring-append s.value (put_settings ss ++ post) n.0.1 in
    let more = settings_loop-put ss body post _ n.1 fits on_next.1 in
    rw (here, name, on_value.0, on_value.1, value, on_next.0, more) refl

pub get_settings-put :
    (ss : List StorageSettings) (body : Bytes) (lo hi : ℕ)
    → SettingsNoNul ss
    → length ss < 2 ^ 43
    → length body < 2 ^ 64
    → slice_from lo body ≡ some (put_u64 (length ss) ++ put_settings ss)
    → hi ≡ lo + 8
    → get_settings lo hi body ≡ some ss
unfolding get_settings
get_settings-put ss body lo hi n few fits h e =
    let counted = slice-put_u64 lo body (put_settings ss) (length ss) h in
    let all : settings_loop (length ss) body (lo + 8) ≡ some ss =
      settings_loop-put ss body [] (lo + 8) n fits (rw append-nil counted.1) in
    rw (e, counted.0, u64-put_u64 (length ss) (omega arith), lt→ltb _ _ few) all
