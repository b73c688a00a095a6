-- ===== src/Storage/S3/Moves.antt =====
-- MoveObject of pkg/storage/s3storage.go.
use yproxy.Base.{◌++◌, ◌∷◌, ◌≡◌, ◌≢◌}
use yproxy.Bytes.{Bytes}
use yproxy.Proc.Effect.{ok}
use yproxy.Proc.Garbage.Paths.{slash}
use yproxy.Storage.S3.{Service}
use yproxy.Storage.S3.Removes.{Stays}

-- The name of an object with its bucket
abbrev pub named : Bytes → Bytes → Bytes
named b k = b ++ slash ∷ k

-- Another object than this one
abbrev pub Other : Bytes → Bytes → Bytes → Bytes → Type 0
Other b k c j = named c j ≢ named b k

module _ {W Session Body X : Type 0} (sv : Service W Session Body)
    (Has : Bytes → Bytes → X → W → Type 0) where
  -- What the service promises of `Has bucket key x`, that the object at the key has the contents
  -- `x`: a copy that succeeds from `bucket/key` takes the contents of the object that this names to
  -- its key, and only copying to a key or deleting it ends what it has.
  pub record Copies : Type 0 where
    pub stays : (b k : Bytes) (x : X) → Stays sv (Other b k) (Other b k) (Has b k x)
    pub copied :
        (b c k to class : Bytes) (s : Session) (x : X) (w : W)
        → (sv.copy_object s b (named c k) to class w).0 ≡ ok tt
        → Has c k x w
        → Has b to x (sv.copy_object s b (named c k) to class w).1
