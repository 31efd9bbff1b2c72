-- ===== src/Policy/Decisions.antt =====
-- crates/policy/src/lib.rs: which commands a worker's policy lets pass.
use multinode_controller.Base.{
  ◌≡◌, ◌≢◌, ◌↔◌, ◌⊎◌, refl, ap, ◌∙◌, Bool, true, false, List, [], ◌∷◌, ◌++◌, some, Text, text_dec,
  any, first, All, arith, Bool-cases, Option-cases, inl, inr,
}
use multinode_controller.Protocol.{DecisionKind, PolicyDecision, OperationRequest, RunSpec}
use multinode_controller.Policy.Paths.{file_name, slash, IsName, file_name-slash}
use multinode_controller.Policy.Rules.{
  PolicyMode, PolicyConfig, ConfigPolicy, command_matches, command_matches_any, allow_decision,
  deny_decision, by_mode, command_of, authorize,
}

-- A pattern names a command by its text or by its file name.
abbrev pub IsNamed : Text → Text → Type 0
IsNamed command pattern = (command ≡ pattern) ⊎ (file_name command ≡ some pattern)

-- The worker's operator lets a command pass: no pattern denied names it, and, where everything else
-- is denied, not every pattern allowed fails to.
pub record IsPermitted (config : PolicyConfig) (command : Text) : Type 0 where
  pub undenied : All (λ pattern. ¬ IsNamed command pattern) config.deny_commands
  pub listed :
      config.mode ≡ PolicyMode.deny_all
      → ¬ All (λ pattern. ¬ IsNamed command pattern) config.allow_commands

matches-IsNamed :
    (command pattern : Text) → command_matches command pattern ≡ true → IsNamed command pattern
unfolding command_matches
matches-IsNamed c p h = elim (text_dec c p) [
  | yes same ↦ inl same
  | no other ↦ elim (Option-cases (file_name c)) [
    | inl e ↦ absurd (ground (arith, e))
    | inr (name, e) ↦ inr (ground (arith, e))
  ]
]

IsNamed-matches :
    (command pattern : Text) → IsNamed command pattern → command_matches command pattern ≡ true
unfolding command_matches
IsNamed-matches c p (inl same) = ground (arith, same)
IsNamed-matches c p (inr named) = rw named (ground arith)

command_matches_any_lem :
    (command : Text) (patterns : List Text)
    → command_matches_any command patterns ≡ false
      ↔ All (λ pattern. ¬ IsNamed command pattern) patterns
unfolding command_matches_any any
command_matches_any_lem c [] = (λ h. tt, λ h. refl)
command_matches_any_lem c (p ∷ ps) = elim (Bool-cases (command_matches c p)) [
  | inl e ↦ (λ h. absurd (ground (arith, e)), λ h. absurd (h.0 (matches-IsNamed c p e)))
  | inr e ↦ (
    λ h. (
      λ named. absurd (ground (arith, IsNamed-matches c p named)),
      (command_matches_any_lem c ps).0 (ground (arith, e)),
    ),
    λ h. ground (arith, e, (command_matches_any_lem c ps).1 h.1),
  )
]

-- The decision lets the task start exactly under the condition, and does not ask.
abbrev pub Decides : PolicyDecision → Type 0 → Type 0
Decides d P = (d.decision ≡ DecisionKind.allow ↔ P) × (d.decision ≢ DecisionKind.ask)

allow_decision-Decides :
    (policy : ConfigPolicy) (P : Type 0) → P → Decides (allow_decision policy) P
unfolding allow_decision
allow_decision-Decides policy P h = ((λ e. h, λ h. refl), λ e. absurd (ground arith))

deny_decision-Decides : (reason : Text) (P : Type 0) → ¬ P → Decides (deny_decision reason) P
unfolding deny_decision
deny_decision-Decides reason P h =
    ((λ e. absurd (ground arith), λ p. absurd (h p)), λ e. absurd (ground arith))

by_mode-Decides :
    (policy : ConfigPolicy) (command : Text) (mode : PolicyMode)
    → command_matches_any command policy.config.deny_commands ≡ false
    → policy.config.mode ≡ mode
    → Decides (by_mode policy command mode) (IsPermitted policy.config command)
unfolding by_mode
by_mode-Decides policy c PolicyMode.allow_all free e =
    allow_decision-Decides policy (IsPermitted policy.config c) (record {
      undenied = (command_matches_any_lem c policy.config.deny_commands).0 free;
      listed = λ e'. absurd (ground arith);
    })
by_mode-Decides policy c PolicyMode.deny_all free e =
    elim (Bool-cases (command_matches_any c policy.config.allow_commands)) [
      | inl on ↦ rw on (
          allow_decision-Decides policy (IsPermitted policy.config c) (record {
            undenied = (command_matches_any_lem c policy.config.deny_commands).0 free;
            listed = λ e' unnamed. absurd (
                ground (arith, (command_matches_any_lem c policy.config.allow_commands).1 unnamed));
          }))
      | inr off ↦ rw off (
          deny_decision-Decides _ (IsPermitted policy.config c) (λ permitted.
            permitted.listed e ((command_matches_any_lem c policy.config.allow_commands).0 off)))
    ]

-- A policy lets a task start exactly if its operator lets its command pass, whatever the
-- operation, and it never asks.
pub authorize-Decides :
    (policy : ConfigPolicy) (operation : OperationRequest) (spec : RunSpec)
    → Decides (authorize policy operation spec) (IsPermitted policy.config (command_of spec))
unfolding authorize
authorize-Decides policy operation spec =
    elim (Bool-cases (command_matches_any (command_of spec) policy.config.deny_commands)) [
      | inl e ↦ rw e (
          deny_decision-Decides _ (IsPermitted policy.config (command_of spec)) (λ permitted.
            absurd (
              ground (
                arith,
                (command_matches_any_lem (command_of spec) policy.config.deny_commands).1
                    permitted.undenied,
              ))))
      | inr e ↦ rw e (by_mode-Decides policy (command_of spec) policy.config.mode e refl)
    ]

any-middle {ℓ} :
    {A : Type ℓ} (p : A → Bool) (xs : List A) (y : A) (zs : List A)
    → p y ≡ true
    → any p (xs ++ y ∷ zs) ≡ true
unfolding any
any-middle p [] y zs h = ground (arith, h)
any-middle p (x ∷ xs) y zs h = ground (arith, any-middle p xs y zs h)

command_of-argv :
    (spec : RunSpec) (c : Text) (args : List Text) → spec.argv ≡ c ∷ args → command_of spec ≡ c
unfolding command_of first
command_of-argv spec c args h = rw h refl

-- A name on the list of denied commands bars the program of that name under any directory.
pub authorize-directory :
    (policy : ConfigPolicy) (operation : OperationRequest) (spec : RunSpec) (directory name : Text)
    (args before after : List Text)
    → IsName name
    → policy.config.deny_commands ≡ before ++ name ∷ after
    → spec.argv ≡ (directory ++ slash ∷ name) ∷ args
    → (authorize policy operation spec).decision ≡ DecisionKind.deny
unfolding authorize command_matches_any deny_decision
authorize-directory policy operation spec directory name args before after h listed started =
    let c = directory ++ slash ∷ name in
    let barred : any (command_matches c) policy.config.deny_commands ≡ true =
      ap (any (command_matches c)) listed
      ∙ any-middle (command_matches c) before name after
          (IsNamed-matches c name (inr (file_name-slash directory name h))) in
    rw (command_of-argv spec c args started, barred) refl
