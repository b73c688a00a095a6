-- ===== src/Storage/Tests.antt =====
-- A bucket with two objects under the prefix `w`, listed in two pages, and two unfinished uploads.
use yproxy.Base.{
  ◌≡◌, refl, inl, true, false, Option, none, some, List, [], ◌∷◌, Elem, if◌then◌else◌, arith,
}
use yproxy.Bytes.{Bytes, ascii, eqb}
use yproxy.Message.ObjectMeta.{ObjectInfo}
use yproxy.Proc.Effect.{Result, ok, err}
use yproxy.Proc.Garbage.Handlers.{has_prefix, filter}
use yproxy.Proc.Garbage.Mgr.{Error, text}
use yproxy.Storage.Names.{cut_prefix}
use yproxy.Storage.Settings.{
  resolve_storage_setting, storage_class_setting, StorageConfig, lookup, build_cred_map,
}
use yproxy.Storage.S3.{
  Content, Page, Service, shown_path, metas_of, object_path, list_bucket_path,
  list_failed_multipart_uploads, failed_uploads, has_key,
}
use yproxy.Storage.S3.Listing.{Delivers, last, more, list_bucket_path-Delivers}
use yproxy.Storage.S3.Moves.{named}
use yproxy.Storage.S3.Cache.{
  CacheFile, missing, untouched, written, cached_prefix, list_bucket_path_cached, list_path,
  list_path-list_bucket_path_cached,
}
use yproxy.Commands.{default_flags, put_settings}
use yproxy.Storage.S3.Put.{Puts, planned}
use yproxy.Storage.S3.Put.Flags.{bucket_planned, planned-put_settings}
use yproxy.Storage.S3.Put.Running as Running
use yproxy.Storage.S3.Put.Running.{
  Uploads, Apart, Any, begins, running_not_failed, same_key-unmarked, put_file_to_dest-marked,
}
use yproxy.Storage.S3.Uploads.{keys}

-- The contents of the objects, by bucket and key
abbrev Keys : Type 0
Keys = Bytes → Option Bytes

abbrev set : Bytes → Option Bytes → Keys → Keys
set p b f q = if eqb q p then b else f q

abbrev cnf : StorageConfig
cnf = record {
  storage_prefix = 119 ∷ [];
  storage_bucket = 98 ∷ [];
  access_key_id = [];
  secret_access_key = [];
  tablespace_map = [];
  credential_map = [];
  id = [];
}

-- `w/a` and `w/b`
abbrev first : Content
first = record { key = 119 ∷ 47 ∷ 97 ∷ []; size = 3; last_modified = 5 }

abbrev second : Content
second = record { key = 119 ∷ 47 ∷ 98 ∷ []; size = 4; last_modified = 6 }

abbrev page_of : Option Bytes → Page Content
page_of none = record { contents = first ∷ []; is_truncated = true; next = [] }
page_of (some token) = record { contents = second ∷ []; is_truncated = false; next = [] }

-- A copy whose source is not there fails.
abbrev copy_found : Bytes → Bytes → Bytes → Keys → Option Bytes → Result Error Unit × Keys
copy_found b from to w none = (err (text "no such key"), w)
copy_found b from to w (some x) = (ok tt, set (named b to) (some x) w)

abbrev service : Service Keys Unit Unit
service = record {
  get_session = λ cr w. (ok tt, w);
  get_object = λ s b k n w. (ok tt, w);
  delete_object = λ s b k w. (ok tt, set (named b k) none w);
  head_object = λ s b k w. (ok [], w);
  copy_object = λ s b from to class w. copy_found b from to w (w from);
  list_objects = λ s b prefix token w. (ok (page_of token), w);
  list_uploads = λ s b marker w. (
    ok (record {
      contents = (97 ∷ [], 1 ∷ []) ∷ (98 ∷ [], 2 ∷ []) ∷ [];
      is_truncated = false;
      next = [];
    }),
    w,
  );
  abort_upload = λ s b k u w. (ok tt, w);
}

abbrev everything : Keys
everything k = some k

two_pages :
    Delivers service tt
      (98 ∷ [])
      (object_path cnf [])
      none
      ((first ∷ []) ∷ (second ∷ []) ∷ [])
      everything
      everything
two_pages =
    more none (page_of none) ((second ∷ []) ∷ []) everything everything everything refl refl
      (last (some []) (page_of (some [])) everything everything refl refl)

list_bucket_path-Delivers_example :
    list_bucket_path service cnf 2 (98 ∷ []) [] everything
    ≡ (ok (metas_of cnf (first ∷ second ∷ [])), everything)
unfolding lookup build_cred_map
list_bucket_path-Delivers_example =
    list_bucket_path-Delivers service cnf 2 tt (98 ∷ []) [] ((first ∷ []) ∷ (second ∷ []) ∷ [])
      everything everything everything refl two_pages (omega arith)

-- The object has these contents.
abbrev Has : Bytes → Bytes → Bytes → Keys → Type 0
Has b k x w = w (named b k) ≡ some x

abbrev shown : List ObjectInfo
shown =
    record { path = 47 ∷ 97 ∷ []; size = 3; last_mod = 5 }
    ∷ record { path = 47 ∷ 98 ∷ []; size = 4; last_mod = 6 }
    ∷ []

-- Nothing is left of the two objects, since they are shown without the prefix.
list_path-list_bucket_path_cached_example :
    (file' : CacheFile) × (list_bucket_path_cached service cnf 2 true written 0 missing
        (98 ∷ [])
        []
        everything
      ≡ (ok (some shown, file'), everything))
    × (list_path service cnf 0 true untouched 9 file' [] [] everything ≡ (
      ok (some (filter (λ o. has_prefix o.path (cached_prefix cnf [])) shown), file'),
      everything,
    ))
unfolding list_bucket_path metas_of lookup build_cred_map shown_path cut_prefix
list_path-list_bucket_path_cached_example =
    list_path-list_bucket_path_cached service cnf 2 0 0 9 missing (98 ∷ []) [] [] [] untouched shown
      everything everything everything (λ e. ground (arith, e)) refl (omega arith)

abbrev uploading : Uploads
uploading = record { marked = (97 ∷ []) ∷ []; running = (97 ∷ []) ∷ [] }

one_upload : Running.Reach Apart uploading
one_upload = Running.step Running.start (begins (97 ∷ []) [] [] (λ h. h))

running_not_failed_example : ¬ (Elem (97 ∷ []) (keys ((98 ∷ [], 2 ∷ []) ∷ [])))
unfolding list_failed_multipart_uploads lookup build_cred_map failed_uploads has_key
running_not_failed_example =
    running_not_failed service cnf uploading 1 (98 ∷ []) ((98 ∷ [], 2 ∷ []) ∷ []) everything
      (97 ∷ []) one_upload refl (inl refl)

-- A service that takes every request
abbrev taking : Puts Keys Unit
taking = record {
  upload = λ s b k class size r w. (ok tt, set (named b k) (some k) w);
  put_object = λ s b k class body w. (ok tt, set (named b k) (some k) w);
  patch_object = λ s b k range body w. (ok tt, w);
}

planned-put_settings_example :
    (resolve_storage_setting (put_settings default_flags) storage_class_setting (ascii "STANDARD")
      ≡ default_flags.storage_class)
    × (planned service taking cnf (put_settings default_flags) everything
        ≡ bucket_planned service taking cnf default_flags.table_space
            default_flags.multipart_chunk_size default_flags.multipart_upload everything)
planned-put_settings_example =
    planned-put_settings service taking cnf default_flags everything (omega arith)
