-- ===== src/Message/ObjectMeta/RoundTrip.antt =====
-- Encode and Decode of ObjectInfoMessage.
use yproxy.Base.{
  ℕ, zero, suc, ◌+◌, ◌≡◌, ◌<◌, refl, ◌∙◌, some, List, [], ◌∷◌, ◌++◌, arith, length, length-append,
  append_assoc, append-nil, ap,
}
use yproxy.Bytes.{
  Bytes, IsU64, slice_from, length-slice_from, put_u64, u64-put_u64, length-put_u64, slice-put_u64,
}
use yproxy.Message.Cstring.{slice_from-cstring, NoNul}
use yproxy.Base.{Option-cases, map, inl, inr, ◌≢◌, ◌≤◌}
use yproxy.Message.ObjectMeta.{
  ObjectInfo, ObjectInfoMessage, put_objects, payload, string_loop, get_string, read_object, done,
  out_of_fuel, objects_loop, decode, sent, ObjectsSendable,
}

string_loop-append :
    (s rest buff : Bytes) (i : ℕ)
    → NoNul s
    → string_loop buff i (s ++ 0 ∷ rest) ≡ (buff ++ s, i + length s + 1)
unfolding string_loop
string_loop-append [] rest buff i h = rw append-nil (ground arith)
string_loop-append (c ∷ s) rest buff i h =
    ground (
      arith,
      string_loop-append s rest (buff ++ (c ∷ [])) (i + 1) h.1,
      append_assoc buff (c ∷ []) s,
    )

get_string-append : (s rest : Bytes) → NoNul s → get_string (s ++ 0 ∷ rest) ≡ (s, length s + 1)
unfolding get_string
get_string-append s rest h = string_loop-append s rest [] 0 h ∙ ap (λ (n : ℕ). (s, n)) (omega arith)

read_object-put :
    (o : ObjectInfo) (rest : Bytes)
    → NoNul o.path
    → IsU64 o.size
    → read_object (o.path ++ 0 ∷ (put_u64 o.size ++ rest)) ≡ some (sent o, rest)
unfolding read_object
read_object-put o rest h fits =
    let body = o.path ++ 0 ∷ (put_u64 o.size ++ rest) in
    let index : 0 + (length o.path + 1) ≡ length o.path + 1 = omega arith in
    let at_size : slice_from (length o.path + 1) body ≡ some (put_u64 o.size ++ rest) =
      rw index at (slice_from-cstring 0 body o.path (put_u64 o.size ++ rest) refl) in
    let size = slice-put_u64 (length o.path + 1) body rest o.size at_size in
    rw
      (get_string-append o.path (put_u64 o.size ++ rest) h, size.0, u64-put_u64 o.size fits, size.1)
      refl

objects_loop_step :
    (fuel : ℕ) (body rest : Bytes) (o : ObjectInfo) (content : List ObjectInfo)
    → 0 < length body
    → read_object body ≡ some (o, rest)
    → objects_loop (suc fuel) body content ≡ objects_loop fuel rest (content ++ (o ∷ []))
unfolding objects_loop
objects_loop_step fuel body rest o content h e = ground (arith, e)

objects_loop-put :
    (os content : List ObjectInfo) (fuel : ℕ)
    → ObjectsSendable os
    → length (put_objects os) ≤ fuel
    → objects_loop fuel (put_objects os) content
      ≡ done (record { content = content ++ map sent os })
unfolding put_objects objects_loop
objects_loop-put [] content zero h f = rw append-nil refl
objects_loop-put [] content (suc fuel) h f = rw append-nil refl
objects_loop-put (o ∷ os) content zero h f =
    absurd (omega (arith, length-append {0} o.path (0 ∷ (put_u64 o.size ++ put_objects os))))
objects_loop-put (o ∷ os) content (suc fuel) h f =
    let rest = put_u64 o.size ++ put_objects os in
    let body = o.path ++ 0 ∷ rest in
    let size : length body ≡ length o.path + suc (8 + length (put_objects os)) = omega (
      arith,
      length-append {0} o.path (0 ∷ rest),
      length-append {0} (put_u64 o.size) (put_objects os),
      length-put_u64 o.size,
    ) in
    let read = read_object-put o (put_objects os) h.0.0 h.0.1 in
    objects_loop_step fuel body (put_objects os) (sent o) content (omega arith) read
    ∙ objects_loop-put os (content ++ (sent o ∷ [])) fuel h.1 (omega arith)
    ∙ rw (append_assoc content (sent o ∷ []) (map sent os)) refl

-- Decode gives back the objects that Encode wrote, in order and without their modification times,
-- if their paths have no NUL and their sizes are 64-bit patterns.
pub decode-payload_objects :
    (m : ObjectInfoMessage)
    → ObjectsSendable m.content
    → decode (payload m) ≡ done (record { content = map sent m.content })
unfolding decode payload
decode-payload_objects m h = objects_loop-put m.content [] _ h (omega arith)

read_object_shorter :
    (body rest : Bytes) (o : ObjectInfo)
    → read_object body ≡ some (o, rest)
    → length rest < length body
unfolding read_object
read_object_shorter body rest o h =
    ground (arith, length-slice_from ((get_string body).1 + 8) body rest)

objects_loop-ne-out_of_fuel :
    (fuel : ℕ) (body : Bytes) (content : List ObjectInfo)
    → length body ≤ fuel
    → objects_loop fuel body content ≢ out_of_fuel
unfolding objects_loop
objects_loop-ne-out_of_fuel zero body content h = ground arith
objects_loop-ne-out_of_fuel (suc fuel) body content h = elim (Option-cases (read_object body)) [
  | inl e ↦ rw e (ground arith)
  | inr ((o, rest), e) ↦ rw e (
      ground (
        arith,
        read_object_shorter body rest o e,
        objects_loop-ne-out_of_fuel fuel rest (content ++ (o ∷ [])),
      ))
]

-- Decode ends on every body: with the objects, or with a panic.
pub decode-ne-out_of_fuel : (body : Bytes) → decode body ≢ out_of_fuel
unfolding decode
decode-ne-out_of_fuel body = elim (Option-cases (slice_from 4 body)) [
  | inl e ↦ rw (e, decode) (λ p. cc)
  | inr (objects, e) ↦
      rw (e, decode) (objects_loop-ne-out_of_fuel (length objects) objects [] (omega arith))
]
