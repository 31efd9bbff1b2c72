-- ===== src/Policy/Rules.antt =====
-- crates/policy/src/lib.rs: a worker's policy and its decision on a task.
use multinode_controller.Base.{
  ℕ, ◌+◌, ◌/◌, ◌%◌, Bool, false, ◌||◌, if◌then◌else◌, List, [], ◌∷◌, ◌++◌, Option, none, some, Text,
  bytes, eq_text, ltb, ◌==◌, any, first, Result, ok, try, with_context,
}
use multinode_controller.Protocol.{
  FilePath, DecisionKind, RiskLevel, PolicyDecision, allow_all as allowed, OperationRequest,
  RunSpec,
}
use multinode_controller.Policy.Paths.{file_name}

pub data PolicyMode : Type 0 where
  allow_all deny_all : PolicyMode

pub record SandboxPolicyConfig : Type 0 where
  pub profile : Option Text
  pub backend : Option Text

pub record PolicyConfig : Type 0 where
  pub version : ℕ
  pub mode : PolicyMode
  pub allow_commands : List Text
  pub deny_commands : List Text
  pub sandbox : Option SandboxPolicyConfig

pub record ConfigPolicy : Type 0 where
  pub config : PolicyConfig
  pub source : Option FilePath

abbrev pub default_config : PolicyConfig
default_config = record {
  version = 1;
  mode = PolicyMode.allow_all;
  allow_commands = [];
  deny_commands = [];
  sandbox = some (record { profile = some (bytes "none"); backend = some (bytes "none") });
}

abbrev pub default_policy : ConfigPolicy
default_policy = record { config = default_config; source = none }

-- `ConfigPolicy::from_path`; `from_str` is serde_yaml's.
unfoldable pub from_path :
    (read_to_string : FilePath → Result Text) (from_str : Text → Result PolicyConfig)
    → FilePath
    → Result ConfigPolicy
from_path read_to_string from_str path =
    try (with_context (bytes "failed to read policy " ++ path) (read_to_string path)) λ input.
      try (with_context (bytes "failed to parse policy " ++ path) (from_str input))
        λ config. ok (record { config = config; source = some path })

unfoldable pub command_matches : Text → Text → Bool
command_matches command pattern =
    eq_text command pattern
    || elim (file_name command) [ none ↦ false | some name ↦ eq_text name pattern ]

unfoldable pub command_matches_any : Text → List Text → Bool
command_matches_any command patterns = any (command_matches command) patterns

-- `{:?}` of a string of printable characters, of ASCII control characters and quotes.
unfoldable pub hex_digit : ℕ → ℕ
hex_digit n = if ltb n 10 then 48 + n else 87 + n

unfoldable pub escape_debug : ℕ → Text
escape_debug c =
    if c == 0
    then bytes "\\0"
    else if c == 9
    then bytes "\\t"
    else if c == 10
    then bytes "\\n"
    else if c == 13
    then bytes "\\r"
    else if c == 34
    then bytes "\\\""
    else if c == 92
    then bytes "\\\\"
    else if ltb c 16
    then bytes "\\u{" ++ hex_digit c ∷ bytes "}"
    else if ltb c 32 || (c == 127)
    then bytes "\\u{" ++ hex_digit (c / 16) ∷ hex_digit (c % 16) ∷ bytes "}"
    else c ∷ []

unfoldable pub escape_all : Text → Text
escape_all [] = []
escape_all (c ∷ t) = escape_debug c ++ escape_all t

unfoldable pub debug : Text → Text
debug t = bytes "\"" ++ (escape_all t ++ bytes "\"")

unfoldable pub profile_of : Option SandboxPolicyConfig → Option Text
profile_of none = some (bytes "none")
profile_of (some sandbox) = elim sandbox.profile [
  | none ↦ some (bytes "none")
  | some profile ↦ some profile
]

unfoldable pub allow_decision : ConfigPolicy → PolicyDecision
allow_decision policy = record allowed {
  reason = elim policy.source [
    | none ↦ bytes "allow_all mode"
    | some source ↦ bytes "allowed by policy " ++ source
  ];
  sandbox_profile = profile_of policy.config.sandbox;
}

unfoldable pub deny_decision : Text → PolicyDecision
deny_decision reason = record {
  decision = DecisionKind.deny;
  reason = reason;
  risk = RiskLevel.high;
  sandbox_profile = none;
  requires_human_approval = false;
  warnings = [];
}

-- The decision on a command, by the mode.
unfoldable pub by_mode : ConfigPolicy → Text → PolicyMode → PolicyDecision
by_mode policy command PolicyMode.allow_all = allow_decision policy
by_mode policy command PolicyMode.deny_all =
    if command_matches_any command policy.config.allow_commands
    then allow_decision policy
    else deny_decision
        (bytes "command " ++ (debug command ++ bytes " is not allowed by worker policy"))

unfoldable pub command_of : RunSpec → Text
command_of spec = elim (first spec.argv) [ none ↦ [] | some command ↦ command ]

unfoldable pub authorize : ConfigPolicy → OperationRequest → RunSpec → PolicyDecision
authorize policy operation spec =
    let command = command_of spec in
    if command_matches_any command policy.config.deny_commands
    then deny_decision (bytes "command " ++ (debug command ++ bytes " denied by worker policy"))
    else by_mode policy command policy.config.mode

-- `AllowAllPolicy::authorize`.
unfoldable allow_everything : OperationRequest → RunSpec → PolicyDecision
allow_everything operation spec = allowed
