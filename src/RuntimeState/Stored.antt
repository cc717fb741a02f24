-- ===== src/RuntimeState/Stored.antt =====
-- Runs of `saveRuntimeState` and `loadRuntimeState` of src/common/RuntimeState.cpp on a record with an
-- entry of each kind.
use inference_server.Shared.{
  ◌≡◌, ◌≢◌, refl, true, false, String, [], ◌∷◌, Option, some, none, lookup,
}
use inference_server.Shared.Int.{ℤ, pos}
use inference_server.Config.{ModelConfig, v11, unknown, cpu, detector}
use inference_server.Deployment.{camera, pipeline, node, task}
use inference_server.Json.{Json, is_map, has_distinct_keys, ascends}
use inference_server.Json.Plain.{Plain, plain_json, plain_json-IsLawful}
use inference_server.RuntimeState.{RuntimeState}
use inference_server.RuntimeState.Writing.{
  state_to_json, source_to_json, pipeline_to_json, task_to_json, model_to_json, stage_to_json,
  edge_to_json, cascade_to_json,
}
use inference_server.RuntimeState.RoundTrip.{HasMaps}
use inference_server.RuntimeState.Saved.{IsWritten, HasPaths}
use inference_server.RuntimeState.Loading.{
  Disk, load_runtime_state, save_runtime_state, default_shape, default_conf_thresh,
  default_nms_thresh,
}
use inference_server.RuntimeState.Restored.{IsRecorded, load-save, load-saved}

abbrev model : ModelConfig
model = record {
  id = "yolo";
  version = v11;
  backend = cpu;
  model_type = detector;
  engine_path = "";
  om_paths = (pos 1, "one.om") ∷ [];
  onnx_path = "yolo.onnx";
  input_shape = default_shape;
  batch_size = pos 8;
  conf_thresh = default_conf_thresh;
  nms_thresh = default_nms_thresh;
  device_id = pos 0;
  num_classes = pos 2;
  class_names = "car" ∷ "bus" ∷ [];
  buffer_pool_size = pos 4;
  instance_count = pos 1;
  device_ids = [];
  cascade =
      record {
        model_id = "plate";
        trigger_classes = pos 0 ∷ [];
        crop_expand = 0;
        attribute_key = "plate";
      }
      ∷ [];
  preferred_batch_sizes = [];
  max_queue_delay_us = pos 10000;
}

abbrev changes : RuntimeState
changes = record {
  added_sources = camera "back" ∷ [];
  removed_source_ids = "front" ∷ [];
  added_pipelines =
      record pipeline {
        nodes =
            record {
              id = "in";
              type = "source.stream";
              with_map = ("fps", "5") ∷ ("name", "in") ∷ [];
            }
            ∷ node "out" "sink.log"
            ∷ [];
      }
      ∷ [];
  removed_pipeline_ids = [];
  added_tasks = task ∷ [];
  removed_task_ids = [];
  added_models = model ∷ [];
  removed_model_ids = [];
}

abbrev show : ℤ → String
show n = "1"

abbrev stoi : String → Option ℤ
stoi s = some (pos 1)

abbrev written : Plain
written = state_to_json (plain_json none) show changes

-- The values of the record, and a parser that finds them.
abbrev json : Json
json = plain_json (some written)

abbrev disk : Disk
disk = record { opens = true; written = λ s. s; renames = true }

abbrev full : Disk
full = record { opens = true; written = λ s. ""; renames = false }

has_version : v11 ≢ unknown
has_version e = cc

changes-IsRecorded : IsRecorded json (plain_json-IsLawful (some written)) show stoi changes
unfolding IsRecorded HasMaps IsWritten HasPaths is_map has_distinct_keys ascends lookup
changes-IsRecorded = (((refl, (refl, tt)), tt), ((has_version, refl, (refl, (refl, tt))), tt))

parsed :
    json.parse (disk.written (json.dump (state_to_json json show changes)))
    ≡ some (state_to_json json show changes)
unfolding state_to_json source_to_json pipeline_to_json task_to_json model_to_json stage_to_json
    edge_to_json cascade_to_json
parsed = refl

load-saved_example :
    load_runtime_state json stoi
      (save_runtime_state json show disk changes "config.yaml.runtime.json" [])
      "config.yaml.runtime.json"
    ≡ some changes
load-saved_example =
    load-saved json (plain_json-IsLawful (some written)) show stoi disk changes
      "config.yaml.runtime.json" [] refl refl parsed changes-IsRecorded

load-save_example :
    load_runtime_state json stoi
      (save_runtime_state json show full changes "config.yaml.runtime.json"
        (("config.yaml.runtime.json", "{}") ∷ []))
      "config.yaml.runtime.json"
    ≡ load_runtime_state json stoi
        (("config.yaml.runtime.json", "{}") ∷ [])
        "config.yaml.runtime.json"
load-save_example =
    load-save json (plain_json-IsLawful (some written)) show stoi full changes
      "config.yaml.runtime.json" (("config.yaml.runtime.json", "{}") ∷ [])
