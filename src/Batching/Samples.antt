-- ===== src/Batching/Samples.antt =====
-- Runs of the models of src/pipeline/BatchScheduler.cpp and src/pipeline/InferWorkerGroup.cpp.
use inference_server.Shared.{
  replicate, ◌++◌, arith, ◌≡◌, refl, true, false, ℕ, String, List, [], ◌∷◌, some, str_eq,
  if◌then◌else◌, any, All, is_some, ◌&&◌, ◌||◌, not, ◌+◌,
}
use inference_server.Shared.Int.{pos}
use inference_server.Config.{ModelConfig, v11, cpu, detector}
use inference_server.Batching.{Frame, Batch, StreamMeta, empty_batch, is_empty, size, int_geq}
use inference_server.Batching.Scheduler.{
  Round, Loop, pops, nothing, schedule_loop, initial, max_bs, preferred_sizes, sort_desc,
  insert_desc, should_flush,
}
use inference_server.Batching.Delivery.{IsDelivered, schedule_loop-IsDelivered}
use inference_server.Batching.Conservation.{all_metas, taken_all, schedule_loop-metas}
use inference_server.Batching.Flushing.{should_flush-least, least_preferred}
use inference_server.Batching.Workers.{
  Worker, running, recovering, stopped, choose, enqueue, dropped_batches, get_elem?, passes,
}
use inference_server.Batching.Routes.{suits, choose-suits}
use inference_server.Batching.Accounts.{queued, enqueue-count}
use inference_server.BatchPolicy.{initial as initial_policy, after, oom}
use inference_server.Batching.Recovery.{
  InferWorker, Outcome, oom as oom_fault, memory_pressure, gpu_fault, decoded, worker_loop,
}
use inference_server.Batching.Retries.{moves_on, retry_lem, worker_loop-drains}

abbrev meta : String → StreamMeta
meta id = record {
  stream_id = id;
  model_id = "";
  capture_ts = 0;
  capture_mono_ns = 0;
  frame_seq = 1;
  orig_width = pos 1920;
  orig_height = pos 1080;
}

abbrev frame : String → Frame String
frame id = record {
  image = "pixels";
  gpu_buf = record { planes = "planes"; cuda_device_id = pos 1 };
  is_gpu = str_eq id "east";
  ascend_buf = record { yuv_device = "yuv"; device_id = pos 0 };
  is_ascend = false;
  meta = meta id;
}

abbrev model : ModelConfig
model = record {
  id = "yolo";
  version = v11;
  backend = cpu;
  model_type = detector;
  engine_path = "";
  om_paths = [];
  onnx_path = "yolo.onnx";
  input_shape = record { batch = pos 1; channels = pos 3; height = pos 640; width = pos 640 };
  batch_size = pos 8;
  conf_thresh = 0;
  nms_thresh = 0;
  device_id = pos 0;
  num_classes = pos 2;
  class_names = [];
  buffer_pool_size = pos 4;
  instance_count = pos 2;
  device_ids = [];
  cascade = [];
  preferred_batch_sizes = pos 2 ∷ pos 4 ∷ [];
  max_queue_delay_us = pos 10000;
}

-- Two streams of the model and one of another; in the second round one gives a GPU frame.
abbrev rounds : List (Round String)
rounds =
    record {
      now = 1;
      active_streams = ("north", "yolo") ∷ ("south", "other") ∷ ("east", "yolo") ∷ [];
      poll = λ sid. if str_eq sid "east" then nothing else pops (frame sid);
      checked = 2;
      restarted = 3;
    }
    ∷ record {
      now = 4;
      active_streams = [];
      poll = λ sid. pops (frame sid);
      checked = 5;
      restarted = 6;
    }
    ∷ []

largest : max_bs model ≡ pos 4
unfolding preferred_sizes sort_desc insert_desc
largest = refl

schedule_loop-IsDelivered_example :
    All (IsDelivered 4) (schedule_loop model rounds (initial model 0)).0
schedule_loop-IsDelivered_example = schedule_loop-IsDelivered model 3 largest rounds 0

abbrev single : Batch String
single = record empty_batch { frames = "pixels" ∷ []; metas = meta "north" ∷ [] }

should_flush-least_example :
    should_flush (preferred_sizes model) false single
    ≡ (not (is_empty single.metas) && (int_geq (size single) (least_preferred model) || false))
should_flush-least_example = should_flush-least model false single

abbrev workers : List (Worker String)
workers =
    record { state = stopped; device_id = pos 0; queue = []; dropped_batches = 0 }
    ∷ record { state = recovering; device_id = pos 0; queue = []; dropped_batches = 0 }
    ∷ record { state = running; device_id = pos 1; queue = []; dropped_batches = 0 }
    ∷ []

abbrev gpu_batch : Batch String
gpu_batch = record empty_batch {
  gpu_frames = record { planes = "planes"; cuda_device_id = pos 1 } ∷ [];
  metas = meta "east" ∷ [];
  is_gpu = true;
  cuda_device_id = pos 1;
}

choose-suits_example :
    (is_some (choose workers 4 gpu_batch (some (pos 1)))
      ≡ any (suits workers gpu_batch (some (pos 1))) workers)
    × ((j : ℕ)
        → choose workers 4 gpu_batch (some (pos 1)) ≡ some j
        → passes (suits workers gpu_batch (some (pos 1))) (get_elem? workers j) ≡ true)
choose-suits_example = choose-suits workers 4 gpu_batch (some (pos 1))

enqueue-count_example :
    queued (enqueue gpu_batch (some (pos 1)) (workers, 5)).0
      + dropped_batches (enqueue gpu_batch (some (pos 1)) (workers, 5)).0
    ≡ queued workers
      + dropped_batches workers
      + (if any (suits workers gpu_batch (some (pos 1))) workers then 1 else 0)
enqueue-count_example = enqueue-count gpu_batch (some (pos 1)) workers 5

abbrev worker : InferWorker String
worker = record {
  worker = record {
    state = running;
    device_id = pos 1;
    queue = gpu_batch ∷ single ∷ [];
    dropped_batches = 0;
  };
  batch_policy = initial_policy;
  processed_batches = 0;
  handed_on = 0;
}

retry_lem_example :
    worker_loop (replicate 3 (λ b. memory_pressure)) worker
    ≡ record worker { batch_policy = after (replicate 3 oom) initial_policy }
retry_lem_example = retry_lem 3 worker gpu_batch (single ∷ []) refl refl (omega arith)

abbrev outcomes : List (Batch String → Outcome)
outcomes = (λ b. gpu_fault oom_fault (λ i. false)) ∷ (λ b. decoded) ∷ []

worker_loop-drains_example : (worker_loop outcomes worker).worker.queue ≡ []
unfolding moves_on
worker_loop-drains_example =
    worker_loop-drains outcomes worker ((λ b. refl), ((λ b. refl), tt)) (omega arith)

abbrev start : Loop String
start = initial model 0

schedule_loop-metas_example :
    all_metas (schedule_loop model rounds start).0
      ++ (schedule_loop model rounds start).1.batch.metas
    ≡ start.batch.metas ++ taken_all model rounds start
schedule_loop-metas_example = schedule_loop-metas model rounds start
