-- ===== src/Storage/S3/Listing.antt =====
-- The pages of ListBucketPath of pkg/storage/s3storage.go.
use yproxy.Base.{
  ℕ, zero, suc, ◌≤◌, ◌≡◌, refl, ap, ◌∙◌, true, false, Option, none, some, List, [], ◌∷◌, ◌++◌,
  append-nil, length, arith,
}
use yproxy.Bytes.{Bytes}
use yproxy.Message.ObjectMeta.{ObjectInfo}
use yproxy.Proc.Effect.{Result, ok, continue}
use yproxy.Proc.Garbage.Mgr.{Error}
use yproxy.Storage.Settings.{StorageConfig}
use yproxy.Storage.S3.{
  Content, Page, Service, shown_path, add_shown, metas_of, append_some, list_pages, session_of,
  list_bucket_path, object_path,
}

module _ {W Session Body : Type 0} (sv : Service W Session Body) (sess : Session)
    (bucket prefix : Bytes) where
  -- From a token on, the service answers with these pages, and changes its state so.
  pub data Delivers : Option Bytes → List (List Content) → W → W → Type 0 where
    last :
        (token : Option Bytes) (page : Page Content) (w w' : W)
        → sv.list_objects sess bucket prefix token w ≡ (ok page, w')
        → page.is_truncated ≡ false
        → Delivers token (page.contents ∷ []) w w'
    more :
        (token : Option Bytes) (page : Page Content) (pages : List (List Content)) (w w' w'' : W)
        → sv.list_objects sess bucket prefix token w ≡ (ok page, w')
        → page.is_truncated ≡ true
        → Delivers (some page.next) pages w' w''
        → Delivers token (page.contents ∷ pages) w w''

abbrev pub all_pages : List (List Content) → List Content
all_pages [] = []
all_pages (page ∷ pages) = page ++ all_pages pages

append_some_assoc :
    (c : Content) (p : Option (Option Bytes)) (xs ys : Option (List ObjectInfo))
    → add_shown c p (append_some xs ys) ≡ append_some (add_shown c p xs) ys
append_some_assoc c none xs ys = refl
append_some_assoc c (some none) xs ys = refl
append_some_assoc c (some (some p)) none ys = refl
append_some_assoc c (some (some p)) (some xs) none = refl
append_some_assoc c (some (some p)) (some xs) (some ys) = refl

append_some_nil : (ys : Option (List ObjectInfo)) → ys ≡ append_some (some []) ys
append_some_nil none = refl
append_some_nil (some ys) = refl

metas_of-append :
    (cnf : StorageConfig) (xs ys : List Content)
    → metas_of cnf (xs ++ ys) ≡ append_some (metas_of cnf xs) (metas_of cnf ys)
unfolding metas_of
metas_of-append cnf [] ys = append_some_nil (metas_of cnf ys)
metas_of-append cnf (c ∷ xs) ys =
    ap (add_shown c (shown_path cnf c.key)) (metas_of-append cnf xs ys)
    ∙ append_some_assoc c (shown_path cnf c.key) (metas_of cnf xs) (metas_of cnf ys)

module _ {W Session Body : Type 0} (sv : Service W Session Body) (cnf : StorageConfig) where
  list_pages-Delivers :
      (fuel : ℕ) (sess : Session) (bucket prefix : Bytes) (token : Option Bytes)
      (pages : List (List Content)) (w w' : W)
      → length pages ≤ fuel
      → Delivers sv sess bucket prefix token pages w w'
      → list_pages sv cnf fuel sess bucket prefix token w
        ≡ (ok (metas_of cnf (all_pages pages)), w')
  unfolding list_pages
  list_pages-Delivers zero sess bucket prefix token _ w w' h (last t page v v' e stop) =
      absurd (omega arith)
  list_pages-Delivers zero sess bucket prefix token _ w w' h
        (more t page pages v v' v'' e on rest) =
      absurd (omega arith)
  list_pages-Delivers (suc fuel) sess bucket prefix token _ w w' h (last t page v v' e stop) =
      rw (e, stop, append-nil page.contents) refl
  list_pages-Delivers (suc fuel) sess bucket prefix token _ w w' h
        (more t page pages v v' v'' e on rest) =
      rw
        (
          e,
          on,
          list_pages-Delivers fuel sess bucket prefix (some page.next) pages v' v'' (omega arith)
              rest,
          metas_of-append cnf page.contents (all_pages pages),
        )
        refl

  -- ListBucketPath returns what it shows of all the objects that the service delivers for the
  -- bucket and the prefix, in order, in however many pages they come: it takes one unit of fuel
  -- for each page.
  pub list_bucket_path-Delivers :
      (fuel : ℕ) (sess : Session) (bucket prefix : Bytes) (pages : List (List Content))
      (w w' w'' : W)
      → session_of sv cnf bucket w ≡ (ok sess, w')
      → Delivers sv sess bucket (object_path cnf prefix) none pages w' w''
      → length pages ≤ fuel
      → list_bucket_path sv cnf fuel bucket prefix w ≡ (ok (metas_of cnf (all_pages pages)), w'')
  unfolding list_bucket_path
  list_bucket_path-Delivers fuel sess bucket prefix pages w w' w'' session delivered enough =
      ap
        (λ (r : Result Error Session × W).
          continue r (λ s. list_pages sv cnf fuel s bucket (object_path cnf prefix) none))
        session
      ∙ list_pages-Delivers fuel sess bucket (object_path cnf prefix) none pages w' w'' enough
          delivered
