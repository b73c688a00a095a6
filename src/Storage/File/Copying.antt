-- ===== src/Storage/File/Copying.antt =====
-- CopyObject of pkg/storage/filestorage.go.
use yproxy.Base.{◌≡◌, refl, some, []}
use yproxy.Bytes.{Bytes}
use yproxy.Proc.Effect.{M, Result, ok, err, continue}
use yproxy.Proc.Garbage.Mgr.{Error}
use yproxy.Storage.Names.{join}
use yproxy.Storage.Settings.{StorageConfig}
use yproxy.Storage.S3.Put.{Stream}
use yproxy.Storage.File.{System, copy_stream, copy_object, file_path, dir}

abbrev Fails : {A : Type 0} → Result Error A → Type 0
Fails {A} r = (e : Error) × Path (Result Error A) r (err e)

module _ {W A B : Type 0} where
  continue-Fails :
      (r : Result Error A × W) (f : A → M W Error B)
      → ((a : A) → r.0 ≡ ok a → Fails (f a r.1).0)
      → Fails (continue r f).0
  continue-Fails (ok a, w) f h = h a refl
  continue-Fails (err e, w) f h = (e, refl)

module _ {W : Type 0} (os : System W) where
  -- A file that was opened for writing only gives an error when it is read.
  abbrev pub NotReadable : Type 0
  NotReadable =
      (p : Bytes) (w : W) (r : Stream)
      → (os.open_write_only p w).0 ≡ ok r
      → (r.bytes ≡ []) × (e : Error) × (r.failure ≡ some e)

  copy_stream-Fails :
      (put : Bytes → M W Error Unit) (r : Stream) (e : Error) (w : W)
      → r.bytes ≡ []
      → r.failure ≡ some e
      → Fails (copy_stream put r w).0
  unfolding copy_stream
  copy_stream-Fails put r e w empty failed = rw (empty, failed) (e, refl)

  -- CopyObject always returns an error: it copies from the file that it opened for writing only
  -- to the one that it opened for reading, and a file that was opened for writing only gives an
  -- error when it is read.
  pub copy_object-Fails :
      (cnf : StorageConfig) (from to from_storage_prefix : Bytes) (w : W)
      → NotReadable
      → (e : Error) × ((copy_object os cnf from to from_storage_prefix w).0 ≡ err e)
  unfolding copy_object
  copy_object-Fails cnf from to from_storage_prefix w not_readable =
      let made = (os.mkdir_all (dir (file_path os cnf to)) w).1 in
      let source = join from_storage_prefix from in
      let found = (os.open_file source made).1 in
      continue-Fails (os.mkdir_all (dir (file_path os cnf to)) w) _ (λ _ _.
        continue-Fails (os.open_file source made) _ (λ _ _.
          continue-Fails (os.open_write_only (file_path os cnf to) found) _ (λ r opened.
            let (empty, e, failed) = not_readable (file_path os cnf to) found r opened in
            copy_stream-Fails (os.write_read_only source) r e
              (os.open_write_only (file_path os cnf to) found).1 empty failed)))
