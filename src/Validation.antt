-- ===== src/Validation.antt =====
-- The checks of src/common/Config.cpp on a configuration that was read: false stands for an exception.
--
-- `std::stof`, `std::stoi`, the tests on a `float` and the matches of
-- identifiers with their patterns are parameters.
pub mod Cycles
pub mod Counting
pub mod Sorting
pub mod Graphs
pub mod Acceptance
mod Samples
use inference_server.Shared.{
  ℕ, Bool, true, false, not, ◌&&◌, ◌||◌, ltb, String, List, [], ◌∷◌, Option, none, some, str_eq,
  if◌then◌else◌, lookup, any, all, is_some,
}
use inference_server.Shared.Int.{ℤ, pos, negsuc}
use inference_server.Config.{
  AppConfig, PipelineSourceConfig, StageConfig, EdgeConfig, PipelineConfig, TaskConfig, ModelConfig,
  CascadeConfig, find_source, find_pipeline, find_model,
}

abbrev pub is_positive : ℤ → Bool
is_positive (pos n) = ltb 0 n
is_positive (negsuc n) = false

abbrev pub is_negative : ℤ → Bool
is_negative (pos n) = false
is_negative (negsuc n) = true

-- `std::unordered_set::count`
abbrev pub contains : List String → String → Bool
contains ids id = any (λ i. str_eq i id) ids

abbrev pub is_blank : Option String → Bool
is_blank none = true
is_blank (some s) = str_eq s ""

-- A setting of a node, where it is there, passes its test.
abbrev pub check_setting : (String → Bool) → Option String → Bool
check_setting p none = true
check_setting p (some s) = p s

-- `sink.stream`: an output URL, and one of two protocols.
unfoldable pub check_stream : List (String × String) → Bool
check_stream settings =
    not (is_blank (lookup settings "output_url"))
    && check_setting (λ p. str_eq p "rtsp" || str_eq p "rtmp") (lookup settings "protocol")

module _ {F : Type 0} (stof : String → Option F) (is_above_zero is_in_range : F → Bool)
    (stoi : String → Option ℤ) where
  abbrev check_fps : String → Bool
  check_fps s = elim (stof s) [ none ↦ false | some fps ↦ is_above_zero fps && is_in_range fps ]

  abbrev check_capacity : String → Bool
  check_capacity s = elim (stoi s) [ none ↦ false | some q ↦ is_positive q ]

  unfoldable pub check_ffplay : List (String × String) → Bool
  check_ffplay settings =
      check_setting check_fps (lookup settings "fps")
      && (check_setting check_capacity (lookup settings "queue_capacity")
          && check_setting (λ p. str_eq p "drop_oldest" || str_eq p "drop_newest")
              (lookup settings "drop_policy"))

  unfoldable pub check_node : StageConfig → Bool
  check_node n =
      not (str_eq n.id "")
      && ((if str_eq n.type "sink.stream" then check_stream n.with_map else true)
          && (if str_eq n.type "sink.ffplay" then check_ffplay n.with_map else true))

  -- The nodes, with the identifiers seen before them.
  unfoldable pub check_nodes : List String → List StageConfig → Bool
  check_nodes seen [] = true
  check_nodes seen (n ∷ ns) =
      check_node n && (not (contains seen n.id) && check_nodes (n.id ∷ seen) ns)

-- The identifiers of the nodes.
unfoldable pub node_ids : List StageConfig → List String
node_ids [] = []
node_ids (n ∷ ns) = n.id ∷ node_ids ns

unfoldable pub check_edge : List String → EdgeConfig → Bool
check_edge ids e = contains ids e.from && (contains ids e.to && is_positive e.capacity)

unfoldable pub check_edges : List String → List EdgeConfig → Bool
unfolding check_edge
check_edges ids es = all (check_edge ids) es

unfoldable pub check_task : AppConfig → TaskConfig → Bool
check_task cfg t =
    not (str_eq t.id "")
    && (not (str_eq t.source_id "")
        && (not (str_eq t.pipeline_id "")
            && (is_some (find_source cfg t.source_id)
                && (is_some (find_pipeline cfg t.pipeline_id)
                    && (is_positive t.sample_fps && not (is_negative t.ascend_device_id))))))

unfoldable pub check_tasks : AppConfig → List String → List TaskConfig → Bool
check_tasks cfg seen [] = true
check_tasks cfg seen (t ∷ ts) =
    check_task cfg t && (not (contains seen t.id) && check_tasks cfg (t.id ∷ seen) ts)

unfoldable pub validate_tasks : AppConfig → Bool
unfolding check_tasks
validate_tasks cfg = check_tasks cfg [] cfg.tasks

-- `matches` is the match of a model's identifier with its pattern.
unfoldable pub check_models : (String → Bool) → List String → List ModelConfig → Bool
check_models matches seen [] = true
check_models matches seen (m ∷ ms) =
    not (str_eq m.id "")
    && (matches m.id && (not (contains seen m.id) && check_models matches (m.id ∷ seen) ms))

unfoldable pub validate_models : (String → Bool) → AppConfig → Bool
unfolding check_models
validate_models matches cfg = check_models matches [] cfg.models

unfoldable pub validate_cascade_model_refs : AppConfig → Bool
validate_cascade_model_refs cfg =
    all (λ m. all (λ (c : CascadeConfig). is_some (find_model cfg c.model_id)) m.cascade) cfg.models

-- `matches` is the match of a source's identifier with its pattern.
unfoldable pub check_sources : (String → Bool) → List String → List PipelineSourceConfig → Bool
check_sources matches seen [] = true
check_sources matches seen (s ∷ ss) =
    not (str_eq s.id "")
    && (matches s.id && (not (contains seen s.id) && check_sources matches (s.id ∷ seen) ss))

unfoldable pub validate_sources : (String → Bool) → AppConfig → Bool
unfolding check_sources
validate_sources matches cfg = check_sources matches [] cfg.sources
