-- ===== src/Proc/List/RoundTrip.antt =====
-- From the objects that the storage lists to those that the client prints.
use yproxy.Base.{
  ℕ, zero, suc, ◌*◌, ◌≤◌, ◌<◌, ◌≡◌, refl, sym, ap, ◌∙◌, List, [], ◌∷◌, ◌++◌, append_assoc,
  append-nil, map, take, drop, length, length-append, length-drop, All, arith,
}
use yproxy.Bytes.{Bytes, put_u64, length-put_u64}
use yproxy.Io.Packet.{Read, read_packet-frame}
use yproxy.Message.Kind.{MessageType, message_type_object_meta, message_type_ready_for_query}
use yproxy.Message.ObjectMeta as ObjectMeta
use yproxy.Message.ObjectMeta.{ObjectInfo, ObjectsSendable, put_objects, sent}
use yproxy.Message.ObjectMeta.RoundTrip.{decode-payload_objects}
use yproxy.Message.CopyDone.{encode_ready_for_query, ready_for_query_payload}
use yproxy.Proc.List.{chunk_size, write_chunks, list_reply, listed, read_listing}

-- The paths are no longer than the keys of an S3 storage may be.
abbrev pub ShortPaths : List ObjectInfo → Type 0
ShortPaths = All (λ o. length o.path ≤ 1024)

All-take : {A : Type 0} (P : A → Type 0) (n : ℕ) (xs : List A) → All P xs → All P (take n xs)
All-take P zero xs h = tt
All-take P (suc n) [] h = tt
All-take P (suc n) (x ∷ xs) h = (h.0, All-take P n xs h.1)

All-drop : {A : Type 0} (P : A → Type 0) (n : ℕ) (xs : List A) → All P xs → All P (drop n xs)
All-drop P zero xs h = h
All-drop P (suc n) [] h = tt
All-drop P (suc n) (x ∷ xs) h = All-drop P n xs h.1

length-take_bound : {A : Type 0} (n : ℕ) (xs : List A) → length (take n xs) ≤ n
length-take_bound zero xs = omega arith
length-take_bound (suc n) [] = omega arith
length-take_bound (suc n) (x ∷ xs) = omega (arith, length-take_bound n xs)

map-take-drop :
    {A B : Type 0} (f : A → B) (n : ℕ) (xs : List A)
    → map f (take n xs) ++ map f (drop n xs) ≡ map f xs
map-take-drop f zero xs = refl
map-take-drop f (suc n) [] = refl
map-take-drop {B = B} f (suc n) (x ∷ xs) = ap (λ (ys : List B). f x ∷ ys) (map-take-drop f n xs)

length-put_objects :
    (os : List ObjectInfo) → ShortPaths os → length (put_objects os) ≤ 1033 * length os
unfolding put_objects
length-put_objects [] h = omega arith
length-put_objects (o ∷ os) h = omega (
  arith,
  h.0,
  length-put_objects os h.1,
  length-append {0} o.path (0 ∷ (put_u64 o.size ++ put_objects os)),
  length-append {0} (put_u64 o.size) (put_objects os),
  length-put_u64 o.size,
)

-- The packet of a chunk, read by the client
read_listing-encode :
    (os res : List ObjectInfo) (rest : Bytes) (fuel : ℕ)
    → ObjectsSendable os
    → ShortPaths os
    → length os ≤ 1000
    → read_listing (suc fuel) (ObjectMeta.encode (record { content = os }) ++ rest) res
      ≡ read_listing fuel rest (res ++ map sent os)
unfolding read_listing ObjectMeta.encode ObjectMeta.payload
read_listing-encode os res rest fuel h short few =
    let decoded = decode-payload_objects (record { content = os }) h in
    let bound = length-put_objects os short in
    let packet =
      read_packet-frame message_type_object_meta (0 ∷ 0 ∷ 0 ∷ put_objects os) rest (omega arith) in
    rw (read_listing, packet, decoded)
      (ap
        (λ (read : Read (MessageType × Bytes) × Bytes).
          read_listing fuel read.1 (res ++ map sent os))
        packet)

read_listing-ready :
    (res : List ObjectInfo) (rest : Bytes) (fuel : ℕ)
    → read_listing (suc fuel) (encode_ready_for_query ++ rest) res ≡ listed res
unfolding read_listing encode_ready_for_query ready_for_query_payload
read_listing-ready res rest fuel =
    rw
      (
        read_listing,
        read_packet-frame message_type_ready_for_query (0 ∷ 0 ∷ 0 ∷ []) rest (omega arith),
      )
      refl

read_listing-write_chunks :
    (k n fuel : ℕ) (os res : List ObjectInfo) (rest : Bytes)
    → 0 < k
    → k ≤ 1000
    → ObjectsSendable os
    → ShortPaths os
    → length os ≤ n
    → length os < fuel
    → read_listing fuel (write_chunks k n os ++ (encode_ready_for_query ++ rest)) res
      ≡ listed (res ++ map sent os)
unfolding write_chunks
read_listing-write_chunks k n zero os res rest pos big h short few h' = absurd (omega arith)
read_listing-write_chunks k zero (suc fuel) [] res rest pos big h short few h' =
    read_listing-ready res rest fuel ∙ ap listed (sym (append-nil res))
read_listing-write_chunks k zero (suc fuel) (o ∷ os) res rest pos big h short few h' =
    absurd (omega arith)
read_listing-write_chunks k (suc n) (suc fuel) [] res rest pos big h short few h' =
    read_listing-ready res rest fuel ∙ ap listed (sym (append-nil res))
read_listing-write_chunks k (suc n) (suc fuel) (o ∷ os) res rest pos big h short few h' =
    let chunk = take k (o ∷ os) in
    let later = drop k (o ∷ os) in
    let tail = encode_ready_for_query ++ rest in
    let size = length-drop k (o ∷ os) in
    ap (λ (b : Bytes). read_listing (suc fuel) b res)
      (append_assoc (ObjectMeta.encode (record { content = chunk })) (write_chunks k n later) tail)
    ∙ read_listing-encode chunk res (write_chunks k n later ++ tail) fuel
        (All-take (λ o. _) k (o ∷ os) h) (All-take (λ o. length o.path ≤ 1024) k (o ∷ os) short)
        (omega (arith, length-take_bound k (o ∷ os)))
    ∙ read_listing-write_chunks k n fuel later (res ++ map sent chunk) rest pos big
        (All-drop (λ o. _) k (o ∷ os) h) (All-drop (λ o. length o.path ≤ 1024) k (o ∷ os) short)
        (omega arith) (omega arith)
    ∙ ap listed (
        append_assoc res (map sent chunk) (map sent later)
        ∙ ap (λ (ys : List ObjectInfo). res ++ ys) (map-take-drop sent k (o ∷ os)))

-- The client reads back from the answer to a list request every object that the storage listed, in
-- order and without their modification times, in no more rounds than there are objects and one,
-- if the paths have no NUL and at most 1024 bytes and the sizes are 64-bit patterns.
pub read_listing-list_reply :
    (os : List ObjectInfo) (rest : Bytes) (fuel : ℕ)
    → ObjectsSendable os
    → ShortPaths os
    → length os < fuel
    → read_listing fuel (list_reply os ++ rest) [] ≡ listed (map sent os)
unfolding list_reply
read_listing-list_reply os rest fuel h short enough =
    ap (λ (b : Bytes). read_listing fuel b [])
      (append_assoc (write_chunks chunk_size (length os) os) encode_ready_for_query rest)
    ∙ read_listing-write_chunks chunk_size (length os) fuel os [] rest (omega arith) (omega arith) h
        short (omega arith) enough
