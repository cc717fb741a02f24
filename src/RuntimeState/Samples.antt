-- ===== src/RuntimeState/Samples.antt =====
-- Runs of the changes of src/common/RuntimeState.cpp on the deployment's sources.
use inference_server.Shared.{◌≡◌, refl, List, [], ◌∷◌, some, find_id}
use inference_server.Config.{PipelineSourceConfig, source_key}
use inference_server.Deployment.{camera}
use inference_server.RuntimeState.{apply_delta}
use inference_server.RuntimeState.Lookup.{forget}
use inference_server.RuntimeState.Recovery.{add_lost}

abbrev base : List PipelineSourceConfig
base = camera "front" ∷ []

present : find_id source_key base "front" ≡ some (camera "front")
unfolding find_id
present = refl

add_lost_example :
    find_id source_key
      (apply_delta source_key base
        (forget ("front" ∷ []) "front")
        (record (camera "front") { url = "rtsp://other" } ∷ []))
      "front"
    ≡ some (camera "front")
add_lost_example =
    add_lost source_key base ("front" ∷ []) [] (record (camera "front") { url = "rtsp://other" })
      (camera "front") present
