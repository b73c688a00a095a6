-- ===== src/Message/Frame.antt =====
-- How every Encode of pkg/message ends: the length of the whole packet, its own eight bytes
-- included, is put in front.
use yproxy.Base.{
  ℕ, ◌+◌, ◌^◌, ◌<◌, ◌≡◌, ◌∙◌, sym, ap, some, ◌++◌, append_assoc, arith, length, length-append,
}
use yproxy.Bytes.{Bytes, u64, put_u64, u64-put_u64_append, length-put_u64}

-- ln := len(bt) + 8; PutUint64(bs, uint64(ln)); append(bs, bt...)
unfoldable pub frame : Bytes → Bytes
frame bt = put_u64 (length bt + 8) ++ bt

-- The frame of one body begins with that of another only if nothing is left.
pub frame-append_full :
    (body other tail : Bytes)
    → length body + 8 < 2 ^ 64
    → length other + 8 < 2 ^ 64
    → frame body ≡ frame other ++ tail
    → length tail ≡ 0
unfolding frame
frame-append_full body other tail small small' h =
    let split : put_u64 (length body + 8) ++ body ≡ put_u64 (length other + 8) ++ (other ++ tail) =
      h ∙ append_assoc (put_u64 (length other + 8)) other tail in
    let sizes : some (length body + 8) ≡ some (length other + 8) =
      sym (u64-put_u64_append (length body + 8) body small)
      ∙ ap u64 split
      ∙ u64-put_u64_append (length other + 8) (other ++ tail) small' in
    let same : length body + 8 ≡ length other + 8 = cc in
    omega (
      arith,
      same,
      ap (length {A = ℕ}) split,
      length-append {0} (put_u64 (length body + 8)) body,
      length-append {0} (put_u64 (length other + 8)) (other ++ tail),
      length-append {0} other tail,
      length-put_u64 (length body + 8),
      length-put_u64 (length other + 8),
    )
