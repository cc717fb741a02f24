-- ===== src/Batching/Workers.antt =====
-- src/pipeline/InferWorkerGroup.cpp: the workers of a model, and the choice of the worker for a batch;
-- src/pipeline/InferWorker.cpp: how a worker takes it.
--
-- The states of the workers do not change while a batch is placed.
use inference_server.Shared.{
  ℕ, zero, suc, ◌+◌, ◌%◌, ◌^◌, Bool, true, false, ◌&&◌, ◌||◌, List, [], ◌∷◌, ◌++◌, Option, none,
  some, or_else, if◌then◌else◌, ltb, leb, length,
}
use inference_server.Shared.Int.{ℤ, pos, negsuc, int_eq}
use inference_server.Config.{ModelConfig}
use inference_server.Batching.{Batch, AscendBuffer}

pub data WorkerState : Type 0 where
  running recovering stopped : WorkerState

-- `cudaDeviceId` and `ascendDeviceId` are both the instance's device.
pub record Worker (X : Type 0) : Type 0 where
  pub state : WorkerState
  pub device_id : ℤ
  pub queue : List (Batch X)
  pub dropped_batches : ℕ

-- `kMaxQueueSize`
abbrev pub max_queue_size : ℕ
max_queue_size = 32

abbrev pub get_elem? {ℓ} : {A : Type ℓ} → List A → ℕ → Option A
get_elem? [] i = none
get_elem? (x ∷ xs) zero = some x
get_elem? (x ∷ xs) (suc i) = get_elem? xs i

-- The number of instances: at least one.
abbrev pub instance_count : ModelConfig → ℕ
instance_count cfg = elim cfg.instance_count [ negsuc n ↦ 1 | pos n ↦ if ltb n 1 then 1 else n ]

-- The devices of the instances from the `i`-th on.
unfoldable pub instance_devices : ModelConfig → ℕ → ℕ → List ℤ
instance_devices cfg zero i = []
instance_devices cfg (suc k) i =
    elim (get_elem? cfg.device_ids i) [ none ↦ cfg.device_id | some d ↦ d ]
    ∷ instance_devices cfg k (suc i)

-- The constructor: the configuration of each instance.
unfoldable pub instance_cfgs : ModelConfig → List ModelConfig
instance_cfgs cfg = configs (instance_devices cfg (instance_count cfg) 0)
  where
    configs : List ℤ → List ModelConfig
    configs [] = []
    configs (d ∷ ds) = record cfg { device_id = d } ∷ configs ds

module _ {X : Type 0} where
  abbrev pub is_running : Worker X → Bool
  is_running w = elim w.state [ running ↦ true | _ ↦ false ]

  abbrev pub is_recovering : Worker X → Bool
  is_recovering w = elim w.state [ recovering ↦ true | _ ↦ false ]

  abbrev pub is_stopped : Worker X → Bool
  is_stopped w = elim w.state [ stopped ↦ true | _ ↦ false ]

  abbrev pub passes : (Worker X → Bool) → Option (Worker X) → Bool
  passes p none = false
  passes p (some w) = p w

  abbrev pub runs_on : ℤ → Worker X → Bool
  runs_on target w = is_running w && int_eq w.device_id target

  -- The first Ascend frame of an Ascend batch.
  abbrev pub ascend_front : Batch X → Option (AscendBuffer X)
  ascend_front b = if b.is_ascend then get_elem? b.ascend_frames 0 else none

  -- `InferWorker::enqueue`
  unfoldable pub take_batch : Batch X → Worker X → Worker X
  take_batch b w =
      if is_stopped w || leb max_queue_size (length w.queue)
      then record w { dropped_batches = w.dropped_batches + 1 }
      else record w { queue = w.queue ++ b ∷ [] }

  -- `InferWorker::enqueueHead`
  unfoldable pub take_back : Batch X → Worker X → Worker X
  take_back b w =
      if leb max_queue_size (length w.queue)
      then record w { dropped_batches = w.dropped_batches + 1 }
      else record w { queue = b ∷ w.queue }

  module _ (ws : List (Worker X)) (start : ℕ) where
    -- The loop over `workers_[(start + i) % n]` from `i` on, of which `k` rounds are left.
    unfoldable pub scan : (Worker X → Bool) → ℕ → ℕ → Option ℕ
    scan p zero i = none
    scan p (suc k) i =
        let j = (start + i) % length ws in
        let rest = scan p k (suc i) in if passes p (get_elem? ws j) then some j else rest

    abbrev pub first : (Worker X → Bool) → Option ℕ
    first p = scan p (length ws) 0

    -- A running worker, or else one that recovers.
    unfoldable pub choose_any : Option ℕ
    choose_any = or_else (first is_running) (first is_recovering)

    -- The preferred device, where there is one.
    abbrev pub choose_cuda : Bool → Option ℤ → Option ℕ
    choose_cuda is_gpu none = none
    choose_cuda is_gpu (some target) = if is_gpu then first (runs_on target) else none

    abbrev pub choose_ascend : AscendBuffer X → Option ℕ
    choose_ascend buf = first (runs_on buf.device_id)

    -- The worker that gets the batch; `none` drops it.
    unfoldable pub choose : Batch X → Option ℤ → Option ℕ
    choose b restrict = elim (ascend_front b) [
      | none ↦ or_else (choose_cuda b.is_gpu restrict) choose_any
      | some buf ↦ choose_ascend buf
    ]

  abbrev pub update_at : (Worker X → Worker X) → ℕ → List (Worker X) → List (Worker X)
  update_at f i [] = []
  update_at f zero (w ∷ ws) = f w ∷ ws
  update_at f (suc i) (w ∷ ws) = w ∷ update_at f i ws

  abbrev pub give : Batch X → Option ℕ → List (Worker X) → List (Worker X)
  give b none ws = ws
  give b (some j) ws = update_at (take_batch b) j ws

  -- `InferWorkerGroup::enqueue`, with the counter `round_robin_idx_`.
  unfoldable pub enqueue : Batch X → Option ℤ → List (Worker X) × ℕ → List (Worker X) × ℕ
  enqueue b restrict (ws, idx) =
      (give b (choose ws (idx % length ws) b restrict) ws, (idx + 1) % 2 ^ 64)

  -- `InferWorkerGroup::droppedBatches`
  unfoldable pub dropped_batches : List (Worker X) → ℕ
  dropped_batches [] = 0
  dropped_batches (w ∷ ws) = w.dropped_batches + dropped_batches ws
