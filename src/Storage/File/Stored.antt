-- ===== src/Storage/File/Stored.antt =====
-- What PutFileToDest of pkg/storage/filestorage.go stores, and CatFileFromStorage reads.
use yproxy.Base.{
  ℕ, ◌≤◌, ◌≡◌, refl, ◌∙◌, ap, Option, none, some, [], ◌∷◌, ◌++◌, drop, length, leb, true, arith,
}
use yproxy.Bytes.{Bytes}
use yproxy.Proc.Effect.{M, Result, ok, err, continue, bind-eq}
use yproxy.Proc.Garbage.Mgr.{Error}
use yproxy.Storage.Settings.{StorageConfig}
use yproxy.Storage.S3.Put.{Stream}
use yproxy.Storage.File.{
  System, copy_stream, dir, file_path, put_file_to_dest, cat_file_from_storage, skipped_to,
  of_result,
}

module _ {W A B : Type 0} (P : W → Type 0) where
  -- What holds after the rest of a block holds after the block, if this returned.
  continue-After :
      (r : Result Error A × W) (f : A → M W Error B) (b : B)
      → (continue r f).0 ≡ ok b
      → ((a : A) → r.0 ≡ ok a → (f a r.1).0 ≡ ok b → P (f a r.1).1)
      → P (continue r f).1
  continue-After (ok a, w) f b h after = after a refl h
  continue-After (err e, w) f b h after = cc

module _ {W : Type 0} (os : System W) (Reads : Bytes → Bytes → W → Type 0) where
  -- What the operating system promises of `Reads p c`, that the file holds these bytes.
  pub record Files : Type 0 where
    pub created : (p : Bytes) (w : W) → (os.create p w).0 ≡ ok tt → Reads p [] (os.create p w).1
    pub written :
        (p c b : Bytes) (w : W)
        → Reads p c w
        → (os.write p b w).0 ≡ ok tt
        → Reads p (c ++ b) (os.write p b w).1
    pub readable :
        (p c : Bytes) (w : W)
        → Reads p c w
        → (os.open_file p w).0 ≡ ok (record { bytes = c; failure = none })

  module _ (files : Files) (cnf : StorageConfig) where
    copy_stream-Reads :
        (p b : Bytes) (f : Option Error) (w : W)
        → Reads p [] w
        → (copy_stream (os.write p) (record { bytes = b; failure = f }) w).0 ≡ ok tt
        → Reads p b (copy_stream (os.write p) (record { bytes = b; failure = f }) w).1
    unfolding copy_stream
    copy_stream-Reads p [] none w empty h = empty
    copy_stream-Reads p [] (some e) w empty h = cc
    copy_stream-Reads p (c ∷ b) none w empty h =
        continue-After (Reads p (c ∷ b)) (os.write p (c ∷ b) w) (λ _ w'. (ok tt, w')) tt h
          (λ _ wrote _. files.written p [] (c ∷ b) w empty wrote)
    copy_stream-Reads p (c ∷ b) (some e) w empty h =
        continue-After (Reads p (c ∷ b)) (os.write p (c ∷ b) w) (λ _ w'. (err e, w')) tt h
          (λ _ wrote failed. cc failed)

    put_file_to_dest-Reads :
        (name : Bytes) (r : Stream) (w : W)
        → (put_file_to_dest os cnf name r w).0 ≡ ok tt
        → Reads (file_path os cnf name) r.bytes (put_file_to_dest os cnf name r w).1
    unfolding put_file_to_dest
    put_file_to_dest-Reads name r w h =
        let p = file_path os cnf name in
        let made = (os.mkdir_all (dir p) w).1 in
        continue-After (Reads p r.bytes) (os.mkdir_all (dir p) w) _ tt h (λ _ _ rest.
          continue-After (Reads p r.bytes) (os.create p made) _ tt rest (λ _ created copied.
            copy_stream-Reads p r.bytes r.failure (os.create p made).1
              (files.created p made created) copied))

    skipped_to-drop :
        (offset : ℕ) (b : Bytes)
        → offset ≤ length b
        → skipped_to offset (record { bytes = b; failure = none })
          ≡ ok (record { bytes = drop offset b; failure = none })
    unfolding skipped_to
    skipped_to-drop offset b h =
        let fits : leb offset (length b) ≡ true = ground arith in rw fits refl

    -- After a PutFileToDest that succeeds, CatFileFromStorage of the name reads back what was put
    -- from the offset on, if the offset is not beyond its end, a file that is created is empty,
    -- what is written is put to its end, and it can be read then.
    pub put_file_to_dest-cat_file_from_storage :
        (name : Bytes) (r : Stream) (w : W) (offset : ℕ)
        → (put_file_to_dest os cnf name r w).0 ≡ ok tt
        → offset ≤ length r.bytes
        → (cat_file_from_storage os cnf name offset (put_file_to_dest os cnf name r w).1).0
          ≡ ok (record { bytes = drop offset r.bytes; failure = none })
    unfolding cat_file_from_storage of_result
    put_file_to_dest-cat_file_from_storage name r w offset put inside =
        let p = file_path os cnf name in
        let w' = (put_file_to_dest os cnf name r w).1 in
        let found = files.readable p r.bytes w' (put_file_to_dest-Reads name r w put) in
        ap (λ x. x.0)
          (bind-eq (os.open_file p) (λ s. of_result os cnf (skipped_to offset s)) w' _ found)
        ∙ skipped_to-drop offset r.bytes inside
