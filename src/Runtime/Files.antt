-- ===== src/Runtime/Files.antt =====
-- crates/runtime/src/main.rs: the files that the launcher makes, tokens and logs.
use multinode_controller.Base.{
  ltb, Bool, true, false, List, [], ◌∷◌, ◌++◌, Option, none, some, Text, bytes, length,
  if◌then◌else◌, get, insert, Result,
}
use multinode_controller.Protocol.{FilePath}
use multinode_controller.Coordinator.State.{ok, err, waiting}
use multinode_controller.Runtime.Host.{
  File, create_dir, tool, spawn, Host, Os, Action, ◌into◌, ◌next◌, return, bail, from_result,
  record_call,
}

-- The file at a path after `File::create` or a write; one that exists keeps its permissions.
unfoldable pub written : Option File → Text → File
written none text = record { text = text; is_private = false }
written (some file) text = record file { text = text }

unfoldable pub has_content : Option File → Bool
has_content none = false
has_content (some file) = ltb 0 (length file.text)

module _ (os : Os) where
  open os use {refused, parent, output, spawned, from_utf8, file_of}

  -- `path.exists() && fs::metadata(path)?.len() > 0`.
  unfoldable pub is_filled : FilePath → Host → Bool
  is_filled path h = has_content (get (file_of path) h.disk)

  -- A step on a path fails if the access is refused.
  unfoldable pub access : FilePath → Action (Unit {0})
  access path = elim (refused path) [ none ↦ return tt | some e ↦ bail e ]

  unfoldable pub create_dir_all : FilePath → Action (Unit {0})
  create_dir_all path = access path next record_call os (create_dir path)

  unfoldable pub create_parent : FilePath → Action (Unit {0})
  create_parent path = elim (parent path) [ none ↦ return tt | some dir ↦ create_dir_all dir ]

  -- `fs::write`; with no text, `File::create`.
  unfoldable pub write_file : FilePath → Text → Action (Unit {0})
  write_file path text = access path next λ h. (
    ok tt,
    record h { disk = insert (file_of path) (written (get (file_of path) h.disk) text) h.disk },
  )

  unfoldable pub private_at : FilePath → Option File → Action (Unit {0})
  private_at path none = bail (bytes "No such file or directory")
  private_at path (some file) = λ h.
      (ok tt, record h { disk = insert (file_of path) (record file { is_private = true }) h.disk })

  unfoldable pub set_private_permissions : FilePath → Action (Unit {0})
  set_private_permissions path = access path next λ h. private_at path (get (file_of path) h.disk) h

  -- `Command::output`.
  unfoldable pub run_tool : List Text → Action (Result (Bool × Text))
  run_tool args = record_call os (tool args) next return (output args)

  unfoldable pub decode : Text → Action Text
  decode stdout h = (from_result (from_utf8 stdout), h)

  unfoldable pub by_openssl : Result (Bool × Text) → Action Text
  by_openssl (Result.err e) = bail (bytes "failed to generate token with python3 or openssl: " ++ e)
  by_openssl (Result.ok (false, stdout)) =
      bail (bytes "failed to generate token with python3 or openssl")
  by_openssl (Result.ok (true, stdout)) = decode stdout

  unfoldable pub ask_openssl : Action Text
  ask_openssl =
      run_tool (bytes "openssl" ∷ bytes "rand" ∷ bytes "-base64" ∷ bytes "32" ∷ []) into by_openssl

  unfoldable pub by_python : Result (Bool × Text) → Action Text
  by_python (Result.err e) = ask_openssl
  by_python (Result.ok (false, stdout)) = ask_openssl
  by_python (Result.ok (true, stdout)) = decode stdout

  unfoldable pub generate_token : Action Text
  generate_token =
      run_tool (
        bytes "python3"
        ∷ bytes "-c"
        ∷ bytes "import secrets; print(secrets.token_urlsafe(32))"
        ∷ [])
      into by_python

  unfoldable pub new_token : FilePath → Action (Unit {0})
  new_token path =
      generate_token into λ token. write_file path token next set_private_permissions path

  unfoldable pub ensure_token : FilePath → Action (Unit {0})
  ensure_token path =
      create_parent path next λ h. (if is_filled path h then return tt else new_token path) h

  unfoldable pub require_file : FilePath → Text → Action (Unit {0})
  require_file path label h =
      (if is_filled path h
          then return tt
          else bail (bytes "missing " ++ (label ++ (bytes ": " ++ path))))
        h

  unfoldable pub reset_log : FilePath → Action (Unit {0})
  reset_log path = create_parent path next write_file path []

  -- `OpenOptions::append`: what is there stays. The clone of the handle does not fail.
  unfoldable pub open_log : FilePath → Action (Unit {0})
  open_log path = access path next λ h. elim (get (file_of path) h.disk) [
    | none ↦ write_file path [] h
    | some file ↦ (ok tt, h)
  ]

  unfoldable pub in_context : Text → Action (Unit {0}) → Action (Unit {0})
  in_context context action h = (
    elim (action h).0 [
      | ok done ↦ ok tt
      | err e ↦ err (context ++ bytes ": " ++ e)
      | waiting ↦ waiting
    ],
    (action h).1,
  )

  unfoldable pub spawn_logged : List Text → Text → FilePath → Action (Unit {0})
  spawn_logged [] label log_path = bail (bytes "empty " ++ (label ++ bytes " command"))
  spawn_logged (program ∷ args) label log_path =
      in_context (bytes "failed to open " ++ (label ++ (bytes " log " ++ log_path)))
        (open_log log_path)
      next in_context (bytes "failed to start " ++ (label ++ (bytes " with " ++ program))) (
          record_call os (spawn (program ∷ args) log_path) next λ h.
          (from_result (spawned (program ∷ args)), h))
