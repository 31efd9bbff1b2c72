-- ===== src/Cli/Torchrun.antt =====
-- crates/cli/src/main.rs: the request that `torchrun_request_parts` makes, and the address that its
-- nodes meet at.
use multinode_controller.Base.{
  ℕ, suc, max, ◌≡◌, refl, ap, ◌∙◌, false, if◌then◌else◌, List, [], ◌∷◌, ◌++◌, Option, none, some,
  Text, bytes, eq_text, length, show, subst, text_dec, Map, get, get-insert, insert, any, ◌+◌,
  arith,
}
use multinode_controller.Protocol.{NodeId, NodeSummary}
use multinode_controller.Cli.Quoting.{shell_quote, quote_all}

unfoldable pub torchrun_command : ℕ → ℕ → Text → ℕ → List Text → Text
torchrun_command nnodes gpus_per_node master_addr master_port user_argv =
    bytes "exec torchrun --nnodes "
    ++ (show nnodes
        ++ (bytes " --nproc-per-node "
            ++ (show gpus_per_node
                ++ (bytes " --node-rank \"$ML_NODE_RANK\" --master-addr "
                    ++ (shell_quote master_addr
                        ++ (bytes " --master-port "
                            ++ (show master_port ++ (bytes " " ++ quote_all user_argv))))))))

unfoldable pub env_of_rank : ℕ → ℕ → ℕ → Text → ℕ → Map Text
env_of_rank rank nnodes gpus_per_node master_addr master_port =
    insert (bytes "ML_MASTER_PORT") (show master_port) (
      insert (bytes "ML_MASTER_ADDR") master_addr (
        insert (bytes "ML_GPUS_PER_NODE") (show gpus_per_node) (
          insert (bytes "ML_NNODES") (show nnodes) (insert (bytes "ML_NODE_RANK") (show rank) []))))

-- The loop over the nodes, from a rank on; a node named twice has its last rank.
unfoldable pub rank_nodes : ℕ → List NodeId → (ℕ → Map Text) → Map (Map Text) → Map (Map Text)
rank_nodes rank [] env node_env = node_env
rank_nodes rank (node ∷ nodes) env node_env =
    rank_nodes (suc rank) nodes env (insert node (env rank) node_env)

unfoldable pub torchrun_request_parts :
    List NodeId → ℕ → Text → ℕ → List Text → List Text × Map (Map Text)
torchrun_request_parts nodes gpus_per_node master_addr master_port user_argv =
    let nnodes = max (length nodes) 1 in
    (
      bytes "sh"
          ∷ bytes "-lc"
          ∷ torchrun_command nnodes gpus_per_node master_addr master_port user_argv
          ∷ [],
      rank_nodes 0 nodes (λ rank. env_of_rank rank nnodes gpus_per_node master_addr master_port) [],
    )

unfoldable pub find_hostname : NodeId → List NodeSummary → Option Text
find_hostname node_id [] = none
find_hostname node_id (s ∷ rest) =
    let found = find_hostname node_id rest in
    if eq_text s.node_id node_id then some s.hostname else found

unfoldable pub default_master_addr : List NodeId → List NodeSummary → Text
default_master_addr [] summaries = bytes "127.0.0.1"
default_master_addr (node_id ∷ nodes) summaries = elim (find_hostname node_id summaries) [
  | none ↦ node_id
  | some hostname ↦ hostname
]

get-rank_nodes_absent :
    (rank : ℕ) (nodes : List NodeId) (env : ℕ → Map Text) (m : Map (Map Text)) (n : NodeId)
    → any (λ k. eq_text k n) nodes ≡ false
    → get n (rank_nodes rank nodes env m) ≡ get n m
unfolding rank_nodes any
get-rank_nodes_absent rank [] env m n h = refl
get-rank_nodes_absent rank (k ∷ nodes) env m n h = ground (
  arith,
  get-rank_nodes_absent (suc rank) nodes env (insert k (env rank) m) n,
  get-insert k n (env rank) m,
)

get-rank_nodes :
    (rank : ℕ) (before : List NodeId) (n : NodeId) (after : List NodeId) (env : ℕ → Map Text)
    (m : Map (Map Text))
    → any (λ k. eq_text k n) after ≡ false
    → get n (rank_nodes rank (before ++ n ∷ after) env m) ≡ some (env (length before + rank))
unfolding rank_nodes
get-rank_nodes rank [] n after env m h = ground (
  arith,
  get-rank_nodes_absent (suc rank) after env (insert n (env rank) m) n h,
  get-insert n n (env rank) m,
)
get-rank_nodes rank (k ∷ before) n after env m h =
    get-rank_nodes (suc rank) before n after env (insert k (env rank) m) h
    ∙ ap (λ r. some (env r)) (omega arith)

max-length :
    (before : List NodeId) (n : NodeId) (after : List NodeId)
    → max (length (before ++ n ∷ after)) 1 ≡ length (before ++ n ∷ after)
max-length [] n after = omega arith
max-length (k ∷ before) n after = omega arith

-- What a node is told: its rank, and what all of them share.
pub record IsRanked (rank nnodes gpus_per_node : ℕ) (master_addr : Text) (master_port : ℕ)
    (env : Map Text) : Type 0 where
  pub rank_is : get (bytes "ML_NODE_RANK") env ≡ some (show rank)
  pub nnodes_is : get (bytes "ML_NNODES") env ≡ some (show nnodes)
  pub gpus_is : get (bytes "ML_GPUS_PER_NODE") env ≡ some (show gpus_per_node)
  pub addr_is : get (bytes "ML_MASTER_ADDR") env ≡ some master_addr
  pub port_is : get (bytes "ML_MASTER_PORT") env ≡ some (show master_port)

env_of_rank-IsRanked :
    (rank nnodes gpus_per_node : ℕ) (master_addr : Text) (master_port : ℕ)
    → IsRanked rank nnodes gpus_per_node master_addr master_port
        (env_of_rank rank nnodes gpus_per_node master_addr master_port)
unfolding env_of_rank insert get text_dec bytes
env_of_rank-IsRanked rank nnodes gpus_per_node master_addr master_port = record {
  rank_is = refl;
  nnodes_is = refl;
  gpus_is = refl;
  addr_is = refl;
  port_is = refl;
}

-- A node that is not named again gets the number of the nodes before it as its rank, with the
-- number of all nodes and the GPUs, address and port that all of them share.
pub get-torchrun_request_parts :
    (before : List NodeId) (n : NodeId) (after : List NodeId) (gpus_per_node : ℕ)
    (master_addr : Text) (master_port : ℕ) (user_argv : List Text)
    → any (λ k. eq_text k n) after ≡ false
    → (env : Map Text) × (get n
          (torchrun_request_parts
            (before ++ n ∷ after)
            gpus_per_node
            master_addr
            master_port
            user_argv).1
        ≡ some env)
      × IsRanked
          (length before)
          (length (before ++ n ∷ after))
          gpus_per_node
          master_addr
          master_port
          env
unfolding torchrun_request_parts
get-torchrun_request_parts before n after gpus_per_node master_addr master_port user_argv h =
    let nnodes = max (length (before ++ n ∷ after)) 1 in
    let env : ℕ → Map Text =
      λ rank. env_of_rank rank nnodes gpus_per_node master_addr master_port in
    let all : nnodes ≡ length (before ++ n ∷ after) = max-length before n after in
    (
      env (length before),
      get-rank_nodes 0 before n after env [] h ∙ ap (λ r. some (env r)) (omega arith),
      subst
          (λ k.
            IsRanked (length before) k gpus_per_node master_addr master_port (env (length before)))
          all (env_of_rank-IsRanked (length before) nnodes gpus_per_node master_addr master_port),
    )
