-- ===== src/Message/Tests.antt =====
-- The messages of pkg/message on small examples.
use yproxy.Base.{◌*◌, ◌^◌, ◌≡◌, refl, some, [], ◌∷◌}
use yproxy.Bytes.{Bytes, put_u64, u64, slice}
use yproxy.Message.Kind.{message_delete_obsolete}
use yproxy.Message.Obsolete

abbrev key : Bytes
key = 107 ∷ []

-- The text holds two NULs, without which Decode panics.
abbrev lucky : Obsolete.ObsoleteMessage
lucky = record { segnum = 2; port = 5432; db_name = key; message = 0 ∷ 0 ∷ 0 ∷ 0 ∷ [] }

abbrev unlucky : Obsolete.ObsoleteMessage
unlucky = record { segnum = 1; port = 107 * 2 ^ 56; db_name = 4 ∷ []; message = 0 ∷ 0 ∷ [] }

lucky_decoded :
    Obsolete.decode Obsolete.empty (Obsolete.payload message_delete_obsolete lucky) ≡ some unlucky
unfolding Obsolete.decode Obsolete.payload put_u64 slice u64 Obsolete.index_nul
lucky_decoded = refl
