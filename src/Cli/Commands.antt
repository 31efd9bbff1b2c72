-- ===== src/Cli/Commands.antt =====
-- crates/cli/src/main.rs: the commands, as the argument parser gives them, and the programs that
-- some of them run on the nodes.
use multinode_controller.Base.{ℕ, Bool, List, [], ◌∷◌, Option, Text, bytes}
use multinode_controller.Protocol.{FilePath}

pub data InventoryCommand : Type 0 where
  nodes : InventoryCommand
  gpu : (nodes : List Text) → InventoryCommand
  cuda : (nodes : List Text) → InventoryCommand
  torch : (nodes : List Text) → InventoryCommand

pub record NcclArgs : Type 0 where
  pub nodes : List Text
  pub lease : Option Text
  pub gpus_per_node : ℕ
  pub master_addr : Option Text
  pub master_port : ℕ
  pub cwd : Option FilePath

pub data HealthCommand : Type 0 where
  gpu : (nodes : List Text) → HealthCommand
  torch : (nodes : List Text) → HealthCommand
  nccl : NcclArgs → HealthCommand

pub record TorchrunArgs : Type 0 where
  pub nodes : List Text
  pub lease : Option Text
  pub gpus_per_node : ℕ
  pub master_addr : Option Text
  pub master_port : ℕ
  pub cwd : Option FilePath
  pub wait : Bool
  pub timeout_seconds : Option ℕ
  pub argv : List Text

pub data MlCommand : Type 0 where
  torchrun : TorchrunArgs → MlCommand

pub data LeaseCommand : Type 0 where
  create : (nodes : List Text) (count gpus_per_node : Option ℕ) (exclusive : Bool) → LeaseCommand
  list : LeaseCommand
  release : (lease_id : Text) → LeaseCommand

pub data JobCommand : Type 0 where
  list : (limit : ℕ) → JobCommand
  tail : (job_id : Text) (lines : ℕ) → JobCommand
  kill : (job_id : Text) → JobCommand
  status : (job_id : Text) → JobCommand
  watch : (job_id : Text) (interval lines : ℕ) → JobCommand
  diagnose : (job_id : Text) (lines : ℕ) → JobCommand

pub data Command : Type 0 where
  nodes : Command
  inventory : InventoryCommand → Command
  health : HealthCommand → Command
  ml : MlCommand → Command
  lease : LeaseCommand → Command
  job : JobCommand → Command
  run :
      (nodes : List Text) (cwd : Option FilePath) (wait : Bool) (timeout_seconds : Option ℕ)
      (argv : List Text)
      → Command

abbrev pub inventory_gpu_argv : List Text
inventory_gpu_argv =
    bytes "nvidia-smi"
    ∷ bytes
        "--query-gpu=index,name,memory.total,memory.free,memory.used,utilization.gpu,driver_version"
    ∷ bytes "--format=csv,noheader"
    ∷ []

abbrev pub inventory_cuda_argv : List Text
inventory_cuda_argv =
    bytes "sh"
    ∷ bytes "-lc"
    ∷ bytes
        "echo hostname=$(hostname); command -v nvcc >/dev/null 2>&1 && nvcc --version | tail -n 1 || echo nvcc=missing; command -v nvidia-smi >/dev/null 2>&1 && nvidia-smi --query-gpu=driver_version --format=csv,noheader | head -n 1 || echo nvidia-smi=missing"
    ∷ []

abbrev pub inventory_torch_argv : List Text
inventory_torch_argv =
    bytes "python3"
    ∷ bytes "-c"
    ∷ bytes
        "import json, socket\ntry:\n import torch\n print(json.dumps({'hostname': socket.gethostname(), 'torch': torch.__version__, 'cuda_available': torch.cuda.is_available(), 'cuda_version': torch.version.cuda, 'gpu_count': torch.cuda.device_count(), 'devices': [torch.cuda.get_device_name(i) for i in range(torch.cuda.device_count())]}))\nexcept Exception as e:\n print(json.dumps({'hostname': socket.gethostname(), 'torch': 'missing', 'error': str(e)}))"
    ∷ []

abbrev pub health_gpu_argv : List Text
health_gpu_argv =
    bytes "sh"
    ∷ bytes "-lc"
    ∷ bytes
        "set -eu; hostname; nvidia-smi -L; nvidia-smi --query-gpu=index,name,memory.free,memory.used,utilization.gpu --format=csv,noheader"
    ∷ []

abbrev pub health_torch_argv : List Text
health_torch_argv =
    bytes "python3"
    ∷ bytes "-c"
    ∷ bytes
        "import socket, torch\nprint('hostname=' + socket.gethostname())\nprint('torch=' + torch.__version__)\nprint('cuda_available=' + str(torch.cuda.is_available()))\nassert torch.cuda.is_available(), 'torch cuda is not available'\nx=torch.ones((1024,1024), device='cuda')\ny=(x @ x).sum().item()\ntorch.cuda.synchronize()\nprint('cuda_matmul_sum=' + str(y))"
    ∷ []

abbrev pub nccl_smoke_argv : List Text
nccl_smoke_argv =
    bytes "python3"
    ∷ bytes "-c"
    ∷ bytes
        "import os, socket, torch, torch.distributed as dist\nbackend='nccl'\ndist.init_process_group(backend=backend)\nrank=dist.get_rank(); world=dist.get_world_size()\ntorch.cuda.set_device(int(os.environ.get('LOCAL_RANK','0')))\nx=torch.ones(1, device='cuda') * (rank + 1)\ndist.all_reduce(x)\nexpected=world*(world+1)/2\nassert int(x.item()) == int(expected), (x.item(), expected)\nprint(f'hostname={socket.gethostname()} rank={rank} world={world} nccl_all_reduce={x.item()}')\ndist.destroy_process_group()"
    ∷ []
