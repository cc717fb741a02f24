-- ===== src/TaskManager/Url.antt =====
-- `interpolateOutputUrlPlaceholders` and `interpolatePipelineForTask` of
-- src/pipeline/TaskManager.cpp: the placeholders in the output URL of a `sink.stream` node.
--
-- The loop over the text takes fuel, one unit for each placeholder.
use Prim.Native.Char.{code}
use Prim.Native.String.{◌++◌ as concat}
use inference_server.Shared.{
  ℕ, zero, suc, Bool, ◌||◌, Option, none, some, List, [], ◌∷◌, String, str_eq, if◌then◌else◌, ◌==◌,
  lookup, insert, is_some,
}
use inference_server.Config.{StageConfig, PipelineConfig, TaskConfig}

pub data Interpolated : Type 0 where
  text : String → Interpolated
  unterminated unsupported out_of_fuel : Interpolated

abbrev pub open_brace : ℕ
open_brace = b'{'

abbrev pub close_brace : ℕ
close_brace = b'}'

-- The text before the first character with the code, and what follows that, if it is there.
unfoldable pub break_at : ℕ → String → String × Option String
break_at c String.[] = (String.[], none)
break_at c (String.◌∷◌ x s) =
    let r = break_at c s in if code x == c then (String.[], some s) else (String.◌∷◌ x r.0, r.1)

unfoldable pub size : String → ℕ
size String.[] = 0
size (String.◌∷◌ x s) = suc (size s)

-- The value of a placeholder.
unfoldable pub token_value : TaskConfig → String → Option String
token_value task token =
    if str_eq token "task_id"
    then some task.id
    else if str_eq token "source_id"
    then some task.source_id
    else none

abbrev pub prepend : String → Interpolated → Interpolated
prepend before (text rest) = text (concat before rest)
prepend before unterminated = unterminated
prepend before unsupported = unsupported
prepend before out_of_fuel = out_of_fuel

-- The value of a placeholder, and the rest after it.
abbrev pub put_value : (String → Interpolated) → String → Option String → Interpolated
put_value rest after none = unsupported
put_value rest after (some value) = prepend value (rest after)

-- The text after `{`, with `rest` for the loop on what follows the placeholder.
unfoldable pub after_brace :
    TaskConfig → (String → Interpolated) → String × Option String → Interpolated
after_brace task rest (token, none) = unterminated
after_brace task rest (token, some after) = put_value rest after (token_value task token)

unfoldable pub after_text :
    TaskConfig → (String → Interpolated) → String × Option String → Interpolated
unfolding after_brace
after_text task rest (before, none) = text before
after_text task rest (before, some after) =
    prepend before (after_brace task rest (break_at close_brace after))

unfoldable pub interpolate : ℕ → TaskConfig → String → Interpolated
interpolate zero task raw = out_of_fuel
interpolate (suc fuel) task raw = after_text task (interpolate fuel task) (break_at open_brace raw)

unfoldable pub interpolate_output_url : TaskConfig → String → Interpolated
interpolate_output_url task raw = interpolate (suc (size raw)) task raw

abbrev has_brace : String → Bool
has_brace raw = is_some (break_at open_brace raw).1 || is_some (break_at close_brace raw).1

abbrev with_url : StageConfig → Interpolated → Option StageConfig
with_url node (text url) = some (record node { with_map = insert node.with_map "output_url" url })
with_url node _ = none

interpolate_raw : TaskConfig → StageConfig → Option String → Option StageConfig
interpolate_raw task node none = some node
interpolate_raw task node (some raw) =
    if has_brace raw then with_url node (interpolate_output_url task raw) else some node

pub interpolate_node : TaskConfig → StageConfig → Option StageConfig
unfolding interpolate_raw interpolate_output_url
interpolate_node task node =
    if str_eq node.type "sink.stream"
    then interpolate_raw task node (lookup node.with_map "output_url")
    else some node

pub interpolate_nodes : TaskConfig → List StageConfig → Option (List StageConfig)
unfolding interpolate_node
interpolate_nodes task [] = some []
interpolate_nodes task (node ∷ nodes) = elim (interpolate_node task node) [
  | none ↦ none
  | some node' ↦ elim (interpolate_nodes task nodes) [
    | none ↦ none
    | some nodes' ↦ some (node' ∷ nodes')
  ]
]

-- `none`: a placeholder is not closed or not supported, and the call throws.
unfoldable pub interpolate_pipeline_for_task : PipelineConfig → TaskConfig → Option PipelineConfig
unfolding interpolate_nodes
interpolate_pipeline_for_task cfg task = elim (interpolate_nodes task cfg.nodes) [
  | none ↦ none
  | some nodes ↦ some (record cfg { nodes = nodes })
]
