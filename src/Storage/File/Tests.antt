-- ===== src/Storage/File/Tests.antt =====
-- A file system whose files are the entries of a list, the last one written first.
use yproxy.Base.{
  ◌≡◌, ◌↔◌, refl, sym, ap, Option, none, some, List, [], ◌∷◌, ◌++◌, Elem, drop, arith,
}
use yproxy.Bytes.{Bytes, ascii, eqb_refl}
use yproxy.Message.ObjectMeta.{ObjectInfo}
use yproxy.Proc.Effect.{Result, ok, err}
use yproxy.Proc.Garbage.Mgr.{Error, text}
use yproxy.Storage.Names.{join, clean}
use yproxy.Storage.Settings.{StorageConfig, lookup}
use yproxy.Storage.S3.Put.{Stream}
use yproxy.Storage.File.{
  System, directory, file, put_file_to_dest, cat_file_from_storage, copy_object, list_path,
}
use yproxy.Storage.File.Listed.{IsListed, list_path_iff}
use yproxy.Storage.File.Stored.{Files, put_file_to_dest-cat_file_from_storage}
use yproxy.Storage.File.Copying.{NotReadable, copy_object-Fails}

abbrev Disk : Type 0
Disk = List (Bytes × Bytes)

abbrev content : Option Bytes → Result Error Stream
content none = err (text "no such file")
content (some c) = ok (record { bytes = c; failure = none })

abbrev grown : Bytes → Option Bytes → Bytes → Disk → Result Error Unit × Disk
grown p none b w = (err (text "no such file"), w)
grown p (some c) b w = (ok tt, (p, c ++ b) ∷ w)

abbrev os : System Disk
os = record {
  open_file = λ p w. (content (lookup p w), w);
  open_write_only =
      λ p w. (ok (record { bytes = []; failure = some (text "bad file descriptor") }), (p, []) ∷ w);
  mkdir_all = λ p w. (ok tt, w);
  create = λ p w. (ok tt, (p, []) ∷ w);
  write = λ p b w. grown p (lookup p w) b w;
  write_read_only = λ p b w. (err (text "bad file descriptor"), w);
  rename = λ from to w. (ok tt, w);
  remove = λ p w. (ok tt, w);
  walk = λ p w. (
    directory (ascii "/s/")
        ∷ file (ascii "/s/ab") (ok (3, 5))
        ∷ file (ascii "/s/c") (ok (4, 6))
        ∷ [],
    w,
  );
}

abbrev cnf : StorageConfig
cnf = record {
  storage_prefix = ascii "/s/";
  storage_bucket = [];
  access_key_id = [];
  secret_access_key = [];
  tablespace_map = [];
  credential_map = [];
  id = [];
}

lookup-first : (p c : Bytes) (w : Disk) → lookup p ((p, c) ∷ w) ≡ some c
unfolding lookup
lookup-first p c w = rw (eqb_refl p) refl

os-Files : Files os (λ p c w. lookup p w ≡ some c)
os-Files = record {
  created = λ p w _. lookup-first p [] w;
  written = λ p c b w h _. rw h (lookup-first p (c ++ b) w);
  readable = λ p c w h. rw h refl;
}

abbrev stream : Stream
stream = record { bytes = 1 ∷ 2 ∷ 3 ∷ []; failure = none }

put_file_to_dest-cat_file_from_storage_example :
    (cat_file_from_storage os cnf
      (ascii "ab")
      1
      (put_file_to_dest os cnf (ascii "ab") stream []).1).0
    ≡ ok (record { bytes = drop 1 stream.bytes; failure = none })
unfolding put_file_to_dest lookup join clean
put_file_to_dest-cat_file_from_storage_example =
    put_file_to_dest-cat_file_from_storage os (λ p c w. lookup p w ≡ some c) os-Files cnf
      (ascii "ab") stream [] 1 refl (omega arith)

ok-injective : {A : Type 0} {a b : A} → Path (Result Error A) (ok a) (ok b) → a ≡ b
ok-injective h = cc h

os-NotReadable : NotReadable os
os-NotReadable p w r h =
    let same = ok-injective h in
    (ap (λ s. s.bytes) (sym same), text "bad file descriptor", ap (λ s. s.failure) (sym same))

copy_object-Fails_example :
    (e : Error) × ((copy_object os cnf
        (ascii "ab")
        (ascii "c")
        (ascii "/old/")
        ((ascii "/old/ab", 7 ∷ []) ∷ [])).0
      ≡ err e)
copy_object-Fails_example =
    copy_object-Fails os cnf (ascii "ab") (ascii "c") (ascii "/old/")
      ((ascii "/old/ab", 7 ∷ []) ∷ []) os-NotReadable

abbrev ab : ObjectInfo
ab = record { path = ascii "/ab"; size = 3; last_mod = 5 }

list_path_iff_example :
    Elem ab (list_path os cnf (ascii "/a") []).0.0
    ↔ IsListed cnf (ascii "/a") (os.walk cnf.storage_prefix []).0 ab
unfolding list_path
list_path_iff_example = list_path_iff cnf (ascii "/a") os [] ab refl
