-- ===== src/Yio/RetryReader/Tests.antt =====
-- The retrying reader over a small object.
use yproxy.Base.{◌≡◌, refl, false, true, some, [], ◌∷◌}
use yproxy.Bytes.{add64}
use yproxy.Yio.RetryReader.{Reader, got, read, new, default_retry_limit}
use yproxy.Yio.RestartReader.{restart_reader, restart, limited_read}
use yproxy.Yio.RestartReader as RestartReader
use yproxy.Yio.RetryReader.Object.{Storage, storage, fresh_storage}

-- A fresh reader, with two failures ahead.
abbrev fresh : Reader Storage
fresh = new (fresh_storage 2)

abbrev moved : Reader Storage
moved = record {
  offset_reached = 1;
  need_reacquire = false;
  progress = 1;
  under = record { underlying = some (tt, true); world = (1, 0); nil_read = false };
}

fresh_read : read storage default_retry_limit 8 fresh ≡ (got (5 ∷ []), moved)
unfolding read add64 restart_reader restart RestartReader.read limited_read
fresh_read = refl
