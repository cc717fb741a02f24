-- ===== src/Validation/Graphs.antt =====
-- Which pipelines `validatePipelineGraphs` of src/common/Config.cpp accepts, once their nodes and edges pass.
use inference_server.Shared.{
  ◌≡◌, ◌↔◌, ◌+◌, ◌≤◌, Bool, true, false, String, List, [], ◌∷◌, Option, if◌then◌else◌, arith,
  eq_iff,
}
use inference_server.Shared.Int.{ℤ}
use inference_server.Config.{StageConfig, PipelineConfig}
use inference_server.Validation.{contains, check_nodes, check_edges, node_ids}
use inference_server.Validation.Counting.{count}
use inference_server.Validation.Cycles.{is_empty, check_pipeline}
use inference_server.Validation.Sorting.{IsTopological, has_no_cycle-IsTopological}

module _ {F : Type 0} (stof : String → Option F) (is_above_zero is_in_range : F → Bool)
    (stoi : String → Option ℤ) where
  -- No node has another's identifier.
  count-check_nodes :
      (seen : List String) (ns : List StageConfig)
      → check_nodes stof is_above_zero is_in_range stoi seen ns ≡ true
      → (t : String) → count (node_ids ns) t + (if contains seen t then 1 else 0) ≤ 1
  unfolding check_nodes node_ids count
  count-check_nodes seen [] h t = ground arith
  count-check_nodes seen (n ∷ ns) h t =
      ground (arith, count-check_nodes (n.id ∷ seen) ns (ground arith) t, eq_iff n.id t)

  -- A pipeline that has nodes and whose nodes and edges pass their checks is accepted exactly if
  -- its nodes can be put in an order in which each node comes after the nodes that its edges come
  -- from.
  pub check_pipeline-IsTopological :
      (p : PipelineConfig)
      → is_empty p.nodes ≡ false
      → check_nodes stof is_above_zero is_in_range stoi [] p.nodes ≡ true
      → check_edges (node_ids p.nodes) p.edges ≡ true
      → (check_pipeline stof is_above_zero is_in_range stoi p ≡ true)
        ↔ ((order : List String) × IsTopological (node_ids p.nodes) p.edges order)
  unfolding check_pipeline
  check_pipeline-IsTopological p nonempty nodes edges =
      rw (nonempty, nodes, edges)
        (has_no_cycle-IsTopological (node_ids p.nodes) p.edges edges
          (λ t. ground (arith, count-check_nodes [] p.nodes nodes t)))
