-- ===== src/Storage/S3/Cache.antt =====
-- The cache of listings in pkg/storage/s3storage.go, which is one JSON file, and the listings that
-- use it.
use yproxy.Base.{
  ℕ, ◌+◌, ◌*◌, ◌^◌, ◌≤◌, ◌≡◌, ◌≢◌, refl, inl, inr, Bool-cases, Bool, true, false, Option, none,
  some, List, [], ◌∷◌, ltb, if◌then◌else◌, arith,
}
use yproxy.Bytes.{Bytes, eqb, eqb_refl}
use yproxy.Message.ObjectMeta.{ObjectInfo}
use yproxy.Message.Settings.{StorageSettings}
use yproxy.Proc.Effect.{M, ok, pure, ◌>>=◌}
use yproxy.Proc.Garbage.Mgr.{Error}
use yproxy.Proc.Garbage.Handlers.{has_prefix, filter}
use yproxy.Proc.Garbage.Paths.{slash}
use yproxy.Storage.Names.{join}
use yproxy.Storage.Settings.{StorageConfig, lookup}
use yproxy.Storage.S3.{Service, bucket_of, list_bucket_path}

-- The listing of a storage and the time of it, in nanoseconds
pub record CacheEntry : Type 0 where
  pub objects : List ObjectInfo
  pub time : ℕ

-- The file: `broken` is one that is no JSON of entries, or cannot be read.
pub data CacheFile : Type 0 where
  missing empty broken : CacheFile
  entries : List (Bytes × CacheEntry) → CacheFile

unfoldable pub set_cached :
    Bytes → CacheEntry → List (Bytes × CacheEntry) → List (Bytes × CacheEntry)
set_cached id entry [] = (id, entry) ∷ []
set_cached id entry (e ∷ es) =
    let rest = set_cached id entry es in if eqb e.0 id then (id, entry) ∷ es else e ∷ rest

-- How far putInCache comes, whose errors are only logged: the file stays as it is, since none is
-- configured, or since it cannot be opened, read or truncated; it is left empty, or with a part of
-- the new text; or it is written.
pub data Write : Type 0 where
  untouched emptied cut_off written : Write

-- putInCache; a broken file stays as it is. A file that is not configured is `missing`.
unfoldable pub put_in_cache : Write → Bytes → List ObjectInfo → ℕ → CacheFile → CacheFile
unfolding set_cached
put_in_cache how id objs now broken = broken
put_in_cache untouched id objs now file = file
put_in_cache emptied id objs now file = empty
put_in_cache cut_off id objs now file = broken
put_in_cache written id objs now missing =
    entries ((id, record { objects = objs; time = now }) ∷ [])
put_in_cache written id objs now empty = entries ((id, record { objects = objs; time = now }) ∷ [])
put_in_cache written id objs now (entries es) =
    entries (set_cached id (record { objects = objs; time = now }) es)

-- 24 hours
abbrev pub cache_time : ℕ
cache_time = 86400 * 10 ^ 9

-- path.Join("/", cfg.StoragePrefix, prefix)
abbrev pub cached_prefix : StorageConfig → Bytes → Bytes
cached_prefix cnf prefix = join (slash ∷ []) (join cnf.storage_prefix prefix)

abbrev pub unless_old : StorageConfig → Bytes → ℕ → Option CacheEntry → Option (List ObjectInfo)
unless_old cnf prefix now none = none
unless_old cnf prefix now (some e) =
    if ltb (e.time + cache_time) now
    then none
    else some (filter (λ o. has_prefix o.path (cached_prefix cnf prefix)) e.objects)

-- readCache, with `none` for every error
unfoldable pub read_cache : StorageConfig → Bytes → ℕ → CacheFile → Option (List ObjectInfo)
unfolding filter lookup
read_cache cnf prefix now (entries es) = unless_old cnf prefix now (lookup cnf.id es)
read_cache cnf prefix now _ = none

module _ {W Session Body : Type 0} (sv : Service W Session Body) (cnf : StorageConfig) where
  abbrev pub Listed : Type 0
  Listed = Option (List ObjectInfo) × CacheFile

  cached : Bool → Write → ℕ → CacheFile → Option (List ObjectInfo) → Listed
  cached use_cache how now file none = (none, file)
  cached use_cache how now file (some metas) =
      (some metas, if use_cache then put_in_cache how cnf.id metas now file else file)

  -- ListBucketPath with the cache file before it and behind it
  unfoldable pub list_bucket_path_cached :
      ℕ → Bool → Write → ℕ → CacheFile → Bytes → Bytes → M W Error Listed
  unfolding cached
  list_bucket_path_cached fuel use_cache how now file bucket prefix =
      list_bucket_path sv cnf fuel bucket prefix >>= λ metas.
      pure (cached use_cache how now file metas)

  from_cache : Option (List ObjectInfo) → CacheFile → M W Error Listed → M W Error Listed
  from_cache (some objects) file listing = pure (some objects, file)
  from_cache none file listing = listing

  -- ListPath
  unfoldable pub list_path :
      ℕ → Bool → Write → ℕ → CacheFile → Bytes → List StorageSettings → M W Error Listed
  unfolding from_cache
  list_path fuel use_cache how now file prefix settings =
      from_cache (if use_cache then read_cache cnf prefix now file else none) file (
        bucket_of sv cnf settings >>= λ bucket.
        list_bucket_path_cached fuel use_cache how now file bucket prefix)

lookup-set_cached :
    (id : Bytes) (entry : CacheEntry) (es : List (Bytes × CacheEntry))
    → lookup id (set_cached id entry es) ≡ some entry
unfolding lookup set_cached
lookup-set_cached id entry [] = rw (eqb_refl id) refl
lookup-set_cached id entry (e ∷ es) = elim (Bool-cases (eqb e.0 id)) [
  | inl same ↦ rw (same, set_cached, eqb_refl id, lookup) refl
  | inr other ↦ rw (other, set_cached, lookup, other) (lookup-set_cached id entry es)
]

read_cache-put_in_cache :
    (cnf : StorageConfig) (objs : List ObjectInfo) (put read : ℕ) (file : CacheFile)
    (prefix : Bytes)
    → file ≢ broken
    → read ≤ put + cache_time
    → read_cache cnf prefix read (put_in_cache written cnf.id objs put file)
      ≡ some (filter (λ o. has_prefix o.path (cached_prefix cnf prefix)) objs)
unfolding read_cache put_in_cache lookup
read_cache-put_in_cache cnf objs put read missing prefix whole soon =
    let fresh : ltb (put + cache_time) read ≡ false = ground arith in
    rw (eqb_refl cnf.id, fresh) refl
read_cache-put_in_cache cnf objs put read empty prefix whole soon =
    let fresh : ltb (put + cache_time) read ≡ false = ground arith in
    rw (eqb_refl cnf.id, fresh) refl
read_cache-put_in_cache cnf objs put read broken prefix whole soon = absurd (whole refl)
read_cache-put_in_cache cnf objs put read (entries es) prefix whole soon =
    let fresh : ltb (put + cache_time) read ≡ false = ground arith in
    rw (lookup-set_cached cnf.id (record { objects = objs; time = put }) es, fresh) refl

module _ {W Session Body : Type 0} (sv : Service W Session Body) (cnf : StorageConfig) where
  -- For 24 hours a listing through the cache is made of the last listing of the storage, whatever
  -- bucket and prefix this listing had and whatever settings the new one has: it asks the service
  -- for nothing, and returns the objects of the last listing whose paths begin with the
  -- storage's own prefix and the one that is asked for, if a cache file is configured that was not
  -- broken, and that listing was written into it.
  pub list_path-list_bucket_path_cached :
      (fuel fuel' put read : ℕ) (file : CacheFile) (bucket prefix later : Bytes)
      (settings : List StorageSettings) (how : Write) (objs : List ObjectInfo) (w w' v : W)
      → file ≢ broken
      → list_bucket_path sv cnf fuel bucket prefix w ≡ (ok (some objs), w')
      → read ≤ put + cache_time
      → (file' : CacheFile) × (list_bucket_path_cached sv cnf fuel true written put file bucket
            prefix w
          ≡ (ok (some objs, file'), w'))
        × (list_path sv cnf fuel' true how read file' later settings v ≡ (
          ok (some (filter (λ o. has_prefix o.path (cached_prefix cnf later)) objs), file'),
          v,
        ))
  unfolding list_bucket_path_cached list_path cached from_cache
  list_path-list_bucket_path_cached fuel fuel' put read file bucket prefix later settings how objs w
        w' v whole listed soon =
      (
        put_in_cache written cnf.id objs put file,
        rw listed refl,
        rw (read_cache-put_in_cache cnf objs put read file later whole soon) refl,
      )
