-- ===== src/Runtime/Tests.antt =====
-- A start at concrete inputs: the first node, whose worker token is there.
use multinode_controller.Base.{
  join_path, ends_with_slash, ◌≡◌, ◌≢◌, refl, true, false, [], ◌∷◌, none, some, bytes, get,
  get-insert, Map, ◌∙◌, text_dec, insert, Result,
}
use multinode_controller.Coordinator.State.{Outcome}
use multinode_controller.Runtime.Config.{
  CommandKind, foreground, auto, Config, resolved_role, role_of_rank, coordinator_log_path,
  worker_log_path,
}
use multinode_controller.Runtime.Host.{Call, File, Host, Os, go_on}
use multinode_controller.Runtime.Files.{
  has_content, is_filled, written, access, create_parent, write_file, private_at,
  set_private_permissions, run_tool, decode, by_python, generate_token, new_token, ensure_token,
  require_file,
}
use multinode_controller.Runtime.Launch.{main, prepare_tokens}
use multinode_controller.Runtime.Safety.{get-main}

abbrev config : Config
config = record {
  rank = bytes "0";
  role = auto;
  mode = foreground;
  session = bytes "s";
  port = bytes "1";
  listen = bytes "l";
  coordinator_url = bytes "u";
  runtime_dir = bytes "d";
  worker_token_file = bytes "w";
  client_token_file = bytes "c";
  db = bytes "b";
  node_name = bytes "n";
  policy = none;
  coordinator_bin = bytes "x";
  worker_bin = bytes "y";
}

-- The coordinator writes its database while the launcher does anything.
abbrev database : File
database = record { text = bytes "rows"; is_private = false }

abbrev coordinator_writes : Call → Map File → Map File
coordinator_writes call disk = insert (bytes "b") database disk

abbrev plain_os : Os
plain_os = record {
  refused = λ path. none;
  parent = λ path. none;
  output = λ args. Result.ok (true, bytes "secret");
  spawned = λ args. Result.ok tt;
  from_utf8 = λ t. Result.ok t;
  handlers = Result.ok tt;
  file_of = λ path. path;
  others = coordinator_writes;
}

abbrev token : File
token = record { text = bytes "old"; is_private = true }

abbrev host : Host
host = record { disk = (bytes "w", token) ∷ []; calls = []; printed = [] }

token-undisturbed :
    (call : Call) (disk : Map File)
    → get (bytes "w") disk ≡ some token
    → get (bytes "w") (coordinator_writes call disk) ≡ some token
unfolding text_dec bytes
token-undisturbed call disk e = get-insert (bytes "b") (bytes "w") database disk ∙ e

no_log : coordinator_log_path config ≢ bytes "w"
unfolding coordinator_log_path join_path ends_with_slash bytes
no_log e = absurd (cc e)

no_worker_log : worker_log_path config ≢ bytes "w"
unfolding worker_log_path join_path ends_with_slash bytes
no_worker_log e = absurd (cc e)

get-main_example :
    get (bytes "w") (main plain_os CommandKind.start (Result.ok config) [] host).1.disk ≡ some token
unfolding get text_dec bytes has_content
get-main_example =
    get-main plain_os (bytes "w") token token-undisturbed config no_log no_worker_log
      CommandKind.start [] host refl refl

-- The client's token is made, for its owner's eyes only.
client-token :
    get (bytes "c") (prepare_tokens plain_os config (resolved_role config) host).1.disk
    ≡ some (record { text = bytes "secret"; is_private = true })
unfolding prepare_tokens resolved_role role_of_rank ensure_token create_parent is_filled has_content
    new_token generate_token run_tool by_python decode write_file access written
    set_private_permissions private_at get insert text_dec bytes go_on
client-token = refl

-- A worker without its token does not start.
no-token :
    (require_file plain_os (bytes "c") (bytes "worker token") host).0
    ≡ Outcome.err (bytes "missing worker token: c")
unfolding require_file is_filled has_content get text_dec bytes
no-token = refl
