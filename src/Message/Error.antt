-- ===== src/Message/Error.antt =====
-- ErrorMessage of pkg/message/error_message.go.
use yproxy.Base.{
  ◌+◌, ◌^◌, ◌≡◌, ◌<◌, refl, Option, some, [], ◌∷◌, ◌++◌, arith, length, append-nil, ◌>>=◌,
}
use yproxy.Bytes.{
  Bytes, add64, add64-eq-add, slice, slice-append, length-slice_from, u64, put_u64, u64-put_u64,
  slice-put_u64,
}
use yproxy.Message.Frame.{frame}
use yproxy.Message.Kind.{message_type_error}

pub record ErrorMessage : Type 0 where
  pub error : Bytes
  pub message : Bytes

abbrev pub empty : ErrorMessage
empty = record { error = []; message = [] }

unfoldable pub payload : ErrorMessage → Bytes
payload c =
    message_type_error
    ∷ 0
    ∷ 0
    ∷ 0
    ∷ (put_u64 (length c.error) ++ (c.error ++ (put_u64 (length c.message) ++ c.message)))

unfoldable pub encode : ErrorMessage → Bytes
encode c = frame (payload c)

unfoldable pub decode : ErrorMessage → Bytes → Option ErrorMessage
decode c body = do
  error_len ← slice 4 12 body >>= u64
  let error_end = add64 12 error_len
  error ← slice 12 error_end body
  let at_message = add64 error_end 8
  message_len ← slice error_end at_message body >>= u64
  message ← slice at_message (add64 at_message message_len) body
  some (record { error = error; message = message })

-- Decode gives back any error and message that Encode wrote, if Go can hold the body in a slice.
pub decode-payload_error :
    (m : ErrorMessage) → length (payload m) < 2 ^ 63 → decode empty (payload m) ≡ some m
unfolding decode payload
decode-payload_error m h =
    let tail = put_u64 (length m.message) ++ m.message in
    let at_error = slice-put_u64 4 (payload m) (m.error ++ tail) (length m.error) refl in
    let error = slice-append 12 (12 + length m.error) (payload m) m.error tail at_error.1 refl in
    let at_message =
      slice-put_u64 (12 + length m.error) (payload m) m.message (length m.message) error.1 in
    let start = 12 + length m.error + 8 in
    let message =
      slice-append start (start + length m.message) (payload m) m.message []
        (rw append-nil at_message.1) refl in
    let size : start + length m.message < 2 ^ 63 =
      omega (arith, h, length-slice_from start (payload m) m.message at_message.1) in
    rw
      (
        at_error.0,
        u64-put_u64 (length m.error) (omega arith),
        add64-eq-add 12 (length m.error) (omega arith),
        error.0,
        add64-eq-add (12 + length m.error) 8 (omega arith),
        at_message.0,
        u64-put_u64 (length m.message) (omega arith),
        add64-eq-add start (length m.message) (omega arith),
        message.0,
      )
      refl
