-- ===== src/ModelManager/Samples.antt =====
-- A run of src/pipeline/ModelManager.cpp on three models, one of which cannot be started.
use inference_server.Shared.{◌≡◌, ◌+◌, Bool, String, List, [], ◌∷◌, length, str_eq}
use inference_server.Shared.Int.{pos}
use inference_server.Config.{ModelConfig, v8, cpu, detector}
use inference_server.ModelManager.{Command, loads, unloads, swaps, make, obey_all}
use inference_server.ModelManager.Pipelines.{IsSettled, started, ended, obey_all-balance}

abbrev model : String → ModelConfig
model id = record {
  id = id;
  version = v8;
  backend = cpu;
  model_type = detector;
  engine_path = "";
  om_paths = [];
  onnx_path = "";
  input_shape = record { batch = pos 1; channels = pos 3; height = pos 640; width = pos 640 };
  batch_size = pos 8;
  conf_thresh = 0;
  nms_thresh = 0;
  device_id = pos 0;
  num_classes = pos 2;
  class_names = [];
  buffer_pool_size = pos 4;
  instance_count = pos 1;
  device_ids = [];
  cascade =
      record { model_id = "plate"; trigger_classes = []; crop_expand = 0; attribute_key = "plate" }
      ∷ [];
  preferred_batch_sizes = [];
  max_queue_delay_us = pos 10000;
}

abbrev breaks : ModelConfig → Bool
breaks cfg = str_eq cfg.id "broken"

abbrev configured : List ModelConfig
configured = model "yolo" ∷ model "plate" ∷ []

abbrev commands : List Command
commands =
    loads (model "yolo")
    ∷ loads (model "broken")
    ∷ loads (model "plate")
    ∷ swaps "yolo" (model "yolo")
    ∷ unloads "plate"
    ∷ []

obey_all-balance_example :
    IsSettled (obey_all breaks (make configured) commands).0
    × (started (obey_all breaks (make configured) commands).1
        ≡ length (obey_all breaks (make configured) commands).0.entries
          + ended (obey_all breaks (make configured) commands).1)
obey_all-balance_example = obey_all-balance breaks configured commands
