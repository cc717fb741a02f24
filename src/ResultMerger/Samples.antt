-- ===== src/ResultMerger/Samples.antt =====
-- Runs of src/pipeline/ResultMerger.cpp.
use inference_server.Shared.{◌≡◌, String, List, [], ◌∷◌}
use inference_server.Shared.Int.{pos}
use inference_server.ResultMerger.{InferResult, Call, registers, adds, flushes, make, run}
use inference_server.ResultMerger.Conservation.{load, accepted_all, run-load}

abbrev result : String → String → InferResult String String String
result stream ts = record {
  stream_id = stream;
  frame_ts = ts;
  detections = record { attributes = []; others = "car" } ∷ [];
  others = "model";
}

abbrev show : String → String
show ts = ts

-- The second result has the key of the first, which waits.
abbrev calls : List (Call String String String)
calls =
    registers 0 (result "front" "1.0") (pos 1)
    ∷ registers 1 (result "front" "1.0") (pos 1)
    ∷ registers 2 (result "back" "1.0") (pos 0)
    ∷ adds "front" "1.0" (pos 0) "colour" "red"
    ∷ registers 3 (result "front" "2.0") (pos 1)
    ∷ flushes 30
    ∷ []

run-load_example : load (run show (make 20) calls) ≡ accepted_all show (make 20) calls
run-load_example = run-load show 20 calls
