-- ===== src/Proc/Garbage/Restore.antt =====
-- HandleUntrashifyFile of pkg/proc/delete_handler.go, where it returns no error.
use yproxy.Base.{◌≡◌, sym, subst, true, List, [], ◌∷◌, inl, inr}
use yproxy.Message.ObjectMeta.{ObjectInfo}
use yproxy.Message.Untrashify.{UntrashifyMessage}
use yproxy.Proc.Effect.{M, ok, Keeps, Keeps-bind, bind-ok}
use yproxy.Proc.Garbage.Mgr.{BasicGarbageMgr, Error}
use yproxy.Proc.Garbage.Paths.{reg_path_from_trash_path}
use yproxy.Proc.Garbage.Handlers.{restore_files, handle_untrashify_file}
use yproxy.Proc.Garbage.Select.{In}
use yproxy.Proc.Garbage.Tracked.{Brings}

module _ {W : Type 0} (dh : BasicGarbageMgr W) where
  -- What HandleUntrashifyFile does to one file.
  abbrev pub restore : UntrashifyMessage → ObjectInfo → M W Error Unit
  restore msg f =
      dh.storage.move_object dh.storage.default_bucket f.path
        (reg_path_from_trash_path f.path msg.segnum)

  module _ (f : ObjectInfo) (Q : W → Type 0) (msg : UntrashifyMessage)
      (brings : Brings f Q (restore msg)) where
    restore_files-Keeps : (files : List ObjectInfo) → Keeps Q (restore_files dh msg files)
    unfolding restore_files
    restore_files-Keeps [] w q = q
    restore_files-Keeps (g ∷ files) w q =
        Keeps-bind Q (restore msg g) (λ _. restore_files dh msg files) (brings.lasts g)
          (λ _ _ _. restore_files-Keeps files) w q

    restore_files-done :
        (files : List ObjectInfo) (w : W) (a : Unit)
        → In f files
        → (restore_files dh msg files w).0 ≡ ok a
        → Q (restore_files dh msg files w).1
    unfolding restore_files
    restore_files-done [] w a h e = absurd h
    restore_files-done (g ∷ files) w a h e =
        let (b, first, rest) = bind-ok (restore msg g) (λ _. restore_files dh msg files) w a e in
        elim h [
          | inl same ↦ rw first (
              restore_files-Keeps files (restore msg g w).1 (
                subst (λ o. (restore msg o w).0 ≡ ok b → Q (restore msg o w).1) (sym same)
                  (brings.does w b) first))
          | inr later ↦ rw first (restore_files-done files (restore msg g w).1 a later rest)
        ]

  -- If a confirmed untrashify request returns no error, then each file that was listed under its
  -- name was moved back: `Q` holds, which the move of that file brings about and no other move
  -- undoes.
  pub handle_untrashify_file-done :
      (f : ObjectInfo) (Q : W → Type 0) (msg : UntrashifyMessage) (w : W) (files : List ObjectInfo)
      (a : Unit)
      → Brings f Q (restore msg)
      → msg.confirm ≡ true
      → (dh.storage.list_path msg.name w).0 ≡ ok files
      → In f files
      → (handle_untrashify_file dh msg w).0 ≡ ok a
      → Q (handle_untrashify_file dh msg w).1
  unfolding handle_untrashify_file
  handle_untrashify_file-done f Q msg w files a brings confirmed listed here h =
      rw (listed, confirmed)
        (restore_files-done f Q msg brings files (dh.storage.list_path msg.name w).1 a here
          (rw (listed, confirmed) at h))
