-- ===== src/Batching/Recovery.antt =====
-- src/pipeline/InferWorker.cpp: the loop of a worker and its recovery from faults.
--
-- What the backend and the decoder make of a batch is given from outside, and so is which attempts to load the
-- engine again fail. The results that a batch gives are only counted.
use inference_server.Shared.{ℕ, zero, suc, ◌+◌, Bool, List, [], ◌∷◌, if◌then◌else◌, length}
use inference_server.BatchPolicy.{BatchPolicy, on_oom, on_success}
use inference_server.Batching.{Batch, is_empty}
use inference_server.Batching.Workers.{Worker, WorkerState, running, stopped, take_back}

pub record InferWorker (X : Type 0) : Type 0 where
  pub worker : Worker X
  pub batch_policy : BatchPolicy
  pub processed_batches : ℕ
  -- The results that were published or routed on.
  pub handed_on : ℕ

-- `GpuFaultType`
pub data GpuFaultType : Type 0 where
  oom engine_fault context_lost timeout : GpuFaultType

-- How the work on a batch ends: with results, with fewer results than frames, or in an exception.
pub data Outcome : Type 0 where
  decoded : Outcome
  too_few : Outcome
  -- `GpuMemoryPressureException`
  memory_pressure : Outcome
  -- `GpuFaultException`, and whether each of the attempts to load the engine again works.
  gpu_fault : GpuFaultType → (ℕ → Bool) → Outcome
  -- How many results were handed on before the exception.
  failed : ℕ → Outcome

-- The attempts from number `i` on, of which `k` are left.
unfoldable pub recover_from : (ℕ → Bool) → ℕ → ℕ → WorkerState
recover_from loads zero i = stopped
recover_from loads (suc k) i =
    let rest = recover_from loads k (suc i) in if loads i then running else rest

-- `recoverFromFault`: the type of the fault decides only whether the device is reset, which is not part of the
-- model.
abbrev pub recover : GpuFaultType → (ℕ → Bool) → WorkerState
recover fault loads = recover_from loads 3 0

module _ {X : Type 0} where
  -- What a round does with the batch that it took.
  unfoldable pub conclude : Outcome → Batch X → InferWorker X → InferWorker X
  conclude decoded b w = record w {
    handed_on = w.handed_on + length b.metas;
    processed_batches = w.processed_batches + 1;
    batch_policy = on_success w.batch_policy;
  }
  conclude too_few b w = w
  conclude memory_pressure b w = record w {
    batch_policy = on_oom w.batch_policy;
    worker = take_back b w.worker;
  }
  conclude (gpu_fault fault loads) b w = record w {
    worker = record (w.worker) { state = recover fault loads };
  }
  conclude (failed n) b w = record w { handed_on = w.handed_on + n }

  -- The rest of a round, once the queue is read.
  unfoldable pub work_on : (Batch X → Outcome) → List (Batch X) → InferWorker X → InferWorker X
  work_on infer [] w = w
  work_on infer (b ∷ bs) w =
      let w' = record w { worker = record (w.worker) { queue = bs } } in
      if is_empty b.metas then w' else conclude (infer b) b w'

  unfoldable pub work_round : (Batch X → Outcome) → InferWorker X → InferWorker X
  work_round infer w = work_on infer w.worker.queue w

  -- A number of rounds, each with what becomes of a batch in it.
  unfoldable pub worker_loop : List (Batch X → Outcome) → InferWorker X → InferWorker X
  worker_loop [] w = w
  worker_loop (infer ∷ rs) w = worker_loop rs (work_round infer w)
