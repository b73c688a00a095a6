-- ===== src/Message/CopyData.antt =====
-- CopyDataMessage of pkg/message/copy_data.go.
use yproxy.Base.{
  ℕ, ◌+◌, ◌^◌, ◌≡◌, ◌<◌, refl, Option, none, some, [], ◌∷◌, ◌++◌, arith, ltb, lt→ltb, if◌then◌else◌,
  length, append-nil, ◌>>=◌,
}
use yproxy.Bytes.{
  Bytes, add64, add64-eq-add, slice, slice_to, slice-append, slice_to-append, u64, put_u64,
  u64-put_u64, slice-put_u64,
}
use yproxy.Message.Frame.{frame}
use yproxy.Message.Kind.{message_type_copy_data}

pub record CopyDataMessage : Type 0 where
  pub sz : ℕ
  pub bytes : Bytes

abbrev pub empty : CopyDataMessage
empty = record { sz = 0; bytes = [] }

-- `cc.Data[:cc.Sz]` panics if the data is shorter than the size that is sent.
unfoldable pub payload : CopyDataMessage → Option Bytes
payload c = do
  sent ← slice_to c.sz c.bytes
  some (message_type_copy_data ∷ 0 ∷ 0 ∷ 0 ∷ (put_u64 c.sz ++ sent))

unfoldable pub encode : CopyDataMessage → Option Bytes
encode c = payload c >>= λ bt. some (frame bt)

-- `make([]byte, cc.Sz)` panics where the size is no int.
unfoldable pub decode : CopyDataMessage → Bytes → Option CopyDataMessage
decode c body = do
  sz ← slice 4 12 body >>= u64
  copied ← if ltb sz (2 ^ 63) then slice 12 (add64 12 sz) body else none
  some (record { sz = sz; bytes = copied })

-- Encode sends the first `sz` bytes of the data, and Decode gives back just them.
pub decode-payload_copy_data :
    (sent beyond : Bytes)
    → length sent < 2 ^ 63
    → (payload (record { sz = length sent; bytes = sent ++ beyond }) >>= decode empty)
      ≡ some (record { sz = length sent; bytes = sent })
unfolding decode payload
decode-payload_copy_data sent beyond h =
    let body = message_type_copy_data ∷ 0 ∷ 0 ∷ 0 ∷ (put_u64 (length sent) ++ sent) in
    let at_data = slice-put_u64 4 body sent (length sent) refl in
    let copied = slice-append 12 (12 + length sent) body sent [] (rw append-nil at_data.1) refl in
    rw
      (
        slice_to-append sent beyond,
        at_data.0,
        u64-put_u64 (length sent) (omega arith),
        lt→ltb _ _ h,
        add64-eq-add 12 (length sent) (omega arith),
        copied.0,
      )
      refl
