-- ===== src/Runtime/Keeping.antt =====
-- crates/runtime/src/main.rs: the steps that make tokens and logs leave other files alone, and
-- tokens that are there.
use multinode_controller.Base.{
  ◌≡◌, ◌≢◌, Bool, true, false, List, [], ◌∷◌, Option, none, some, Text, text_dec, if◌then◌else◌,
  get, insert, get-insert, Map, arith, Result, Option-cases, inl, inr,
}
use multinode_controller.Protocol.{FilePath}
use multinode_controller.Coordinator.State.{Outcome, ok, err, waiting}
use multinode_controller.Runtime.Host.{
  File, Call, create_dir, tool, spawn, Host, Os, Action, go_on, ◌into◌, ◌next◌, return, bail,
  record_call, println,
}
use multinode_controller.Runtime.Files.{
  has_content, is_filled, access, create_dir_all, create_parent, write_file, private_at,
  set_private_permissions, run_tool, decode, by_openssl, ask_openssl, by_python, generate_token,
  new_token, ensure_token, require_file, reset_log, open_log, in_context, spawn_logged,
}

module _ (os : Os) (path : FilePath) (file : File)
    (undisturbed : (call : Call) (disk : Map File)
      → get path disk ≡ some file
      → get path (os.others call disk) ≡ some file) where
  -- The file is as it was after the action, however that ends.
  abbrev pub Keeps : {A : Type 0} → Action A → Type 0
  Keeps action = (h : Host) → get path h.disk ≡ some file → get path (action h).1.disk ≡ some file

  pub into-Keeps :
      {A B : Type 0} (m : Action A) (f : A → Action B)
      → Keeps m
      → ((a : A) → Keeps (f a))
      → Keeps (m into f)
  unfolding go_on
  into-Keeps {A = A} {B = B} m f km kf h e = outcome-Keeps (m h).0 (m h).1 (km h e)
    where
      outcome-Keeps :
          (o : Outcome A) (h' : Host)
          → get path h'.disk ≡ some file
          → get path (go_on o f h').1.disk ≡ some file
      outcome-Keeps (ok a) h' e' = kf a h' e'
      outcome-Keeps (err x) h' e' = e'
      outcome-Keeps waiting h' e' = e'

  pub next-Keeps :
      {B : Type 0} (m : Action (Unit {0})) (k : Action B) → Keeps m → Keeps k → Keeps (m next k)
  next-Keeps m k km kk = into-Keeps m (λ _. k) km (λ _. kk)

  pub choose-Keeps :
      {A : Type 0} (b : Bool) (m k : Action A) → Keeps m → Keeps k → Keeps (if b then m else k)
  choose-Keeps true m k km kk = km
  choose-Keeps false m k km kk = kk

  pub record_call-Keeps : (call : Call) → Keeps (record_call os call)
  record_call-Keeps call h e = undisturbed call h.disk e

  pub println-Keeps : (lines : List Text) → Keeps (println lines)
  println-Keeps lines h e = e

  pub run_tool-Keeps : (args : List Text) → Keeps (run_tool os args)
  unfolding run_tool go_on
  run_tool-Keeps args h e = undisturbed (tool args) h.disk e

  access-Keeps : (p : FilePath) → Keeps (access os p)
  unfolding access
  access-Keeps p h e = elim (Option-cases (os.refused p)) [
    | inl r ↦ rw (r, access) e
    | inr (x, r) ↦ rw (r, access) e
  ]

  pub create_dir_all-Keeps : (p : FilePath) → Keeps (create_dir_all os p)
  unfolding create_dir_all
  create_dir_all-Keeps p =
      next-Keeps (access os p) _ (access-Keeps p) (record_call-Keeps (create_dir p))

  create_parent-Keeps : (p : FilePath) → Keeps (create_parent os p)
  unfolding create_parent
  create_parent-Keeps p h e = elim (Option-cases (os.parent p)) [
    | inl r ↦ rw (r, create_parent) e
    | inr (dir, r) ↦ rw (r, create_parent) (create_dir_all-Keeps dir h e)
  ]

  insert-kept :
      (p : FilePath) (g : File) (h : Host)
      → os.file_of p ≢ path
      → get path h.disk ≡ some file
      → get path (insert (os.file_of p) g h.disk) ≡ some file
  insert-kept p g h other e = ground (arith, get-insert (os.file_of p) path g h.disk)

  write_file-Keeps :
      (p : FilePath) (text : Text) → os.file_of p ≢ path → Keeps (write_file os p text)
  unfolding write_file
  write_file-Keeps p text other =
      next-Keeps (access os p) _ (access-Keeps p) (λ h e. insert-kept p _ h other e)

  private_at-Keeps :
      (p : FilePath) (o : Option File) → os.file_of p ≢ path → Keeps (private_at os p o)
  unfolding private_at
  private_at-Keeps p none other h e = e
  private_at-Keeps p (some g) other h e = insert-kept p _ h other e

  set_private-Keeps : (p : FilePath) → os.file_of p ≢ path → Keeps (set_private_permissions os p)
  unfolding set_private_permissions
  set_private-Keeps p other =
      next-Keeps (access os p) _ (access-Keeps p)
        (λ h e. private_at-Keeps p (get (os.file_of p) h.disk) other h e)

  by_openssl-Keeps : (r : Result (Bool × Text)) → Keeps (by_openssl os r)
  unfolding by_openssl decode
  by_openssl-Keeps (Result.err x) h e = e
  by_openssl-Keeps (Result.ok (false, t)) h e = e
  by_openssl-Keeps (Result.ok (true, t)) h e = e

  ask_openssl-Keeps : Keeps (ask_openssl os)
  unfolding ask_openssl
  ask_openssl-Keeps = into-Keeps _ (by_openssl os) (run_tool-Keeps _) by_openssl-Keeps

  by_python-Keeps : (r : Result (Bool × Text)) → Keeps (by_python os r)
  unfolding by_python decode
  by_python-Keeps (Result.err x) h e = ask_openssl-Keeps h e
  by_python-Keeps (Result.ok (false, t)) h e = ask_openssl-Keeps h e
  by_python-Keeps (Result.ok (true, t)) h e = e

  generate_token-Keeps : Keeps (generate_token os)
  unfolding generate_token
  generate_token-Keeps = into-Keeps _ (by_python os) (run_tool-Keeps _) by_python-Keeps

  new_token-Keeps : (p : FilePath) → os.file_of p ≢ path → Keeps (new_token os p)
  unfolding new_token
  new_token-Keeps p other = into-Keeps (generate_token os) _ generate_token-Keeps (λ token.
      next-Keeps (write_file os p token) _ (write_file-Keeps p token other)
        (set_private-Keeps p other))

  filled-Keeps :
      (p : FilePath)
      → has_content (some file) ≡ true
      → Keeps (λ h. (if is_filled os p h then return tt else new_token os p) h)
  unfolding is_filled
  filled-Keeps p filled h e = elim (text_dec (os.file_of p) path) [
    | yes same ↦ rw (same, e, filled) e
    | no other ↦
        choose-Keeps (is_filled os p h) (return tt) (new_token os p) (λ g d. d)
          (new_token-Keeps p other) h e
  ]

  -- A token that is there stays, whichever token is made sure of.
  pub ensure_token-Keeps :
      (p : FilePath) → has_content (some file) ≡ true → Keeps (ensure_token os p)
  unfolding ensure_token
  ensure_token-Keeps p filled =
      next-Keeps (create_parent os p) _ (create_parent-Keeps p) (filled-Keeps p filled)

  pub require_file-Keeps : (p : FilePath) (label : Text) → Keeps (require_file os p label)
  unfolding require_file
  require_file-Keeps p label h e =
      choose-Keeps (is_filled os p h) (return tt) (bail _) (λ g d. d) (λ g d. d) h e

  pub reset_log-Keeps : (p : FilePath) → os.file_of p ≢ path → Keeps (reset_log os p)
  unfolding reset_log
  reset_log-Keeps p other =
      next-Keeps (create_parent os p) _ (create_parent-Keeps p) (write_file-Keeps p [] other)

  open_log-Keeps : (p : FilePath) → os.file_of p ≢ path → Keeps (open_log os p)
  unfolding open_log
  open_log-Keeps p other = next-Keeps (access os p) _ (access-Keeps p) (λ h e.
      elim (Option-cases (get (os.file_of p) h.disk)) [
        | inl r ↦ rw r (write_file-Keeps p [] other h e)
        | inr (g, r) ↦ rw r e
      ])

  in_context-Keeps :
      (context : Text) (m : Action (Unit {0})) → Keeps m → Keeps (in_context os context m)
  unfolding in_context
  in_context-Keeps context m km h e = km h e

  pub spawn_logged-Keeps :
      (command : List Text) (label : Text) (p : FilePath)
      → os.file_of p ≢ path
      → Keeps (spawn_logged os command label p)
  unfolding spawn_logged
  spawn_logged-Keeps [] label p other = λ h e. e
  spawn_logged-Keeps (program ∷ args) label p other =
      next-Keeps (in_context os _ (open_log os p)) _
        (in_context-Keeps _ (open_log os p) (open_log-Keeps p other))
        (in_context-Keeps _ _
          (next-Keeps _ _ (record_call-Keeps (spawn (program ∷ args) p)) (λ h e. e)))
