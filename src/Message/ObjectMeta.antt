-- ===== src/Message/ObjectMeta.antt =====
-- ObjectInfoMessage of pkg/message/object_meta_message.go, and ObjectInfo of
-- pkg/object/objectInfo.go. A size is the bit pattern of its int64.
pub mod RoundTrip
use yproxy.Base.{
  All, ℕ, zero, suc, ◌+◌, ◌^◌, ◌≡◌, ◌<◌, refl, ◌∙◌, Option, none, some, Bool, true, false, List, [],
  ◌∷◌, ◌++◌, arith, ltb, lt→ltb, ◌==◌, if◌then◌else◌, length, length-append, get_elem?,
  append_assoc, append-nil, ◌>>=◌, sym, ap,
}
use yproxy.Bytes.{
  Bytes, IsU64, add64, add64-eq-add, slice, slice_from, slice_to, slice-add, slice-append,
  slice_from-add, slice_from-append, slice_to-append, length-slice_from, u64, put_u64, u64-put_u64,
  u64-put_u64_append, length-put_u64, slice-put_u64, get_elem?-slice_from, sub_int, sub_int-add,
}
use yproxy.Message.Cstring.{get_cstring, get_cstring-append, slice_from-cstring, NoNul}
use yproxy.Message.Frame.{frame}
use yproxy.Base.{Option-cases, map, Bool-cases, inl, inr, ◌≢◌, leb}
use yproxy.Message.Kind.{message_type_object_meta}

-- The last modification is in nanoseconds; the zero time stands for an unset one.
pub record ObjectInfo : Type 0 where
  pub path : Bytes
  pub size : ℕ
  pub last_mod : ℕ

pub record ObjectInfoMessage : Type 0 where
  pub content : List ObjectInfo

unfoldable pub put_objects : List ObjectInfo → Bytes
put_objects [] = []
put_objects (o ∷ os) = o.path ++ 0 ∷ (put_u64 o.size ++ put_objects os)

unfoldable pub payload : ObjectInfoMessage → Bytes
unfolding put_objects
payload c = message_type_object_meta ∷ 0 ∷ 0 ∷ 0 ∷ put_objects c.content

unfoldable pub encode : ObjectInfoMessage → Bytes
encode c = frame (payload c)

string_loop : Bytes → ℕ → Bytes → Bytes × ℕ
string_loop buff i [] = (buff, i + 1)
string_loop buff i (c ∷ b) =
    let rest = string_loop (buff ++ (c ∷ [])) (i + 1) b in if c == 0 then (buff, i + 1) else rest

-- GetString: the string before the first NUL, and the index behind that NUL, which lies beyond
-- the end where there is none.
unfoldable pub get_string : Bytes → Bytes × ℕ
unfolding string_loop
get_string b = string_loop [] 0 b

-- One round of the loop of Decode: the object read, and the rest of the body.
unfoldable pub read_object : Bytes → Option (ObjectInfo × Bytes)
read_object body = do
  let (name, index) = get_string body
  size ← slice index (index + 8) body >>= u64
  rest ← slice_from (index + 8) body
  some (record { path = name; size = size; last_mod = 0 }, rest)

-- `out_of_fuel` is no outcome of the program: see `decode-ne-out_of_fuel`.
pub data Decoded {ℓ} (A : Type ℓ) : Type ℓ where
  done : A → Decoded A
  panicked : Decoded A
  out_of_fuel : Decoded A

-- for len(body) > 0
objects_loop : ℕ → Bytes → List ObjectInfo → Decoded ObjectInfoMessage
objects_loop zero body content =
    if length body == 0 then done (record { content = content }) else out_of_fuel
objects_loop (suc fuel) body content =
    let next : Decoded ObjectInfoMessage = elim (read_object body) [
      | none ↦ panicked
      | some (o, rest) ↦ objects_loop fuel rest (content ++ (o ∷ []))
    ] in
    if length body == 0 then done (record { content = content }) else next

-- A round takes nine bytes at least, so as many rounds as there are bytes are enough.
unfoldable pub decode : Bytes → Decoded ObjectInfoMessage
unfolding objects_loop
decode body = elim (slice_from 4 body) [
  | none ↦ panicked
  | some objects ↦ objects_loop (length objects) objects []
]

-- What is sent of an object: its last modification is not.
abbrev pub sent : ObjectInfo → ObjectInfo
sent o = record o { last_mod = 0 }

abbrev pub ObjectsSendable : List ObjectInfo → Type 0
ObjectsSendable = All (λ o. NoNul o.path × IsU64 o.size)
