-- ===== src/Commands/CopyTests.antt =====
-- A copy on a server with one object to copy.
use yproxy.Base.{
  ◌≡◌, ◌⊎◌, refl, subst, true, false, none, some, List, [], ◌∷◌, append-nil, inl, inr, arith,
}
use yproxy.Bytes.{Bytes, put_u64, u64}
use yproxy.Message.Frame.{frame}
use yproxy.Io.Packet.{read_packet}
use yproxy.Message.CopyDone.{encode_ready_for_query}
use yproxy.Message.CopyV2 as CopyV2
use yproxy.Message.CopyComplete as CopyComplete
use yproxy.Proc.Effect as Effect
use yproxy.Proc.Conn.{call, proc_conn, process_copy_extended}
use yproxy.Proc.Conn.Requests.{encode, IsSendable, proc_conn-encode}
use yproxy.Proc.Garbage.Mgr.{Error, text}
use yproxy.Proc.Garbage.Bucket.{unused, dead}
use yproxy.Proc.Reply.{ready}
use yproxy.Proc.Reply.Ready.{takes}
use yproxy.Proc.Copy.{CopyLister, list_files_to_copy, split_objects, is_copied, trim_prefix}
use yproxy.Proc.Copy.Workers.{
  CopyServices, Modes, Round, Rounds, attempt, after, checked, new_round, again, none_left, start,
  step, run, check, here,
}
use yproxy.Proc.Copy.Workers.Complete.{Copies}
use yproxy.Proc.Copy.Handler as Handler
use yproxy.Proc.Copy.Handler.{
  CopyEnv, OldInstance, copying, returned, crashed, prepare, finish, Handled, ran, early,
  nil_crypter,
}
use yproxy.Commands.{Flags, default_flags, copy_request, copied, read_ready, read_copied}
use yproxy.Commands.Copied.{args, Served, served, copy-done}

abbrev error_text : Error → Bytes
error_text e = []

-- A destination is the list of its paths with their contents.
abbrev Store : Type 0
Store = List (Bytes × Bytes)

abbrev services : CopyServices Store Error
services = record {
  copy_object = λ p w. (some (text "no"), w);
  read_old_bucket = λ p w. ((none, p), w);
  decrypt = λ r. some r;
  encrypt = none;
  put_file_to_dest = λ p stream w. (none, (p, stream) ∷ w);
  storage_prefix = [];
}

abbrev lister : CopyLister Store Error
lister = record {
  src_list_path = λ p c w. (Effect.ok (dead ∷ []), w);
  dst_list_path = λ p c w. (Effect.ok [], w);
  get_virtual_index = λ n w. (Effect.ok (λ p. true), w);
  storage_prefix = [];
  storage_optimize_copy = true;
}

abbrev old : OldInstance Store
old = record {
  lister = lister;
  services = services;
  copy_storage_concurrency = 1;
  gpg_key_path = [];
}

abbrev env : CopyEnv Store Unit
env = record {
  read_instance_config = λ p w. (Effect.ok tt, w);
  new_storage = λ c. Effect.ok old;
  cmp_key = some (λ p w. (Effect.ok false, w));
}

abbrev decrypting : Flags
decrypting = record default_flags { confirm = true; decrypt = true }

abbrev modes : Modes
modes = record { ss_copy = false; encrypt = false; decrypt = true }

prepared : prepare env (args decrypting []) [] ≡ (copying old modes (dead ∷ []), [])
unfolding prepare list_files_to_copy split_objects is_copied trim_prefix
prepared = refl

abbrev copied_store : Store
copied_store = (unused, unused) ∷ []

copied_once : Rounds services modes 1 10 (dead ∷ []) none [] [] copied_store
unfolding attempt trim_prefix after checked
copied_once =
    let s : Round Store Error = new_round (dead ∷ []) none [] in
    let s' = after (attempt services modes dead s.world) dead [] s in
    let t = checked dead [] s' in
    again 9 dead [] [] none [] copied_store t
      (step s' t (step s s' start (run s dead [] (here dead []) (omega arith)))
        (check s' dead [] (here dead [])))
      refl refl (none_left 9 none copied_store)

abbrev Has : Bytes → Store → Type 0
Has q [] = ⊥
Has q (o ∷ w) = (o.0 ≡ q) ⊎ Has q w

dead-Copies : Copies services modes unused (Has unused)
unfolding attempt trim_prefix
dead-Copies = record { does = λ o w same ok. inl same; lasts = λ o w other h. inr h }

copy-IsSendable : IsSendable (copy_request decrypting [])
unfolding CopyV2.payload put_u64
copy-IsSendable = record { port_fits = omega arith; fits = omega arith }

abbrev complete : Bytes
complete =
    0 ∷ 0 ∷ 0 ∷ 0 ∷ 0 ∷ 0 ∷ 0 ∷ 12 ∷ 60 ∷ 1 ∷ 0 ∷ 0 ∷ 0 ∷ 0 ∷ 0 ∷ 0 ∷ 0 ∷ 0 ∷ 0 ∷ 12 ∷ 45 ∷ 0 ∷ 0
    ∷ 0 ∷ []

finished : finish error_text takes (args decrypting []) [] ≡ returned (Effect.ok tt) complete
unfolding finish CopyComplete.encode CopyComplete.payload encode_ready_for_query frame put_u64 ready
finished = refl

Handled-copy :
    Handled env error_text takes
      (args decrypting [])
      []
      []
      (returned (Effect.ok tt) complete)
      copied_store
unfolding Handler.conclude
Handled-copy =
    subst (λ o. Handled env error_text takes (args decrypting []) [] [] o copied_store) finished
      (ran old modes (dead ∷ []) [] [] copied_store prepared copied_once)

copy-Served : Served env error_text (encode (copy_request decrypting [])) [] complete copied_store
unfolding CopyV2.payload put_u64
copy-Served =
    served (args decrypting []) [] (Effect.ok tt) complete copied_store
      (subst (λ (c : Bytes). proc_conn c ≡ (call (process_copy_extended (args decrypting [])), []))
        (append-nil (encode (copy_request decrypting [])))
        (proc_conn-encode (copy_request decrypting []) [] copy-IsSendable (omega arith)))
      Handled-copy

told_complete : read_copied complete ≡ copied 1
unfolding read_copied read_ready read_packet u64 CopyComplete.decode
told_complete = refl

copy-done_example : Has unused copied_store
unfolding CopyV2.payload put_u64
copy-done_example =
    copy-done env error_text decrypting [] unused (Has unused) [] [] copied_store old modes
      (dead ∷ []) complete 1 copy-IsSendable (omega arith) prepared refl dead-Copies (inl refl)
      copy-Served told_complete

-- The same server without a crypter
abbrev bare : CopyEnv Store Unit
bare = record env { cmp_key = none }

bare-Handled : Handled bare error_text takes (args decrypting []) [] [] crashed []
unfolding prepare list_files_to_copy split_objects is_copied trim_prefix Handler.stop
bare-Handled = early nil_crypter [] refl
