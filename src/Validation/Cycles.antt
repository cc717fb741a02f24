-- ===== src/Validation/Cycles.antt =====
-- The search for cycles that ends `validatePipelineGraphs` of src/common/Config.cpp.
--
-- The map `indegree` is a function. A node is queued where its number goes from 1 to 0; below 0 nothing is
-- queued. `none` is a loop that is out of fuel.
use inference_server.Shared.{
  ℕ, zero, suc, ◌-◌, ◌==◌, Bool, true, false, String, List, [], ◌∷◌, ◌++◌, Option, none, some,
  str_eq, if◌then◌else◌, length, keep_if, not, ◌&&◌,
}
use inference_server.Shared.Int.{ℤ}
use inference_server.Config.{AppConfig, EdgeConfig, StageConfig, PipelineConfig}
use inference_server.Validation.{contains, check_nodes, check_edges, node_ids}

-- `graph[id]`
unfoldable pub targets : List EdgeConfig → String → List String
targets [] id = []
targets (e ∷ es) id = if str_eq e.from id then e.to ∷ targets es id else targets es id

-- `indegree[id]`, once every edge is counted.
unfoldable pub indegree : List EdgeConfig → String → ℕ
indegree [] id = 0
indegree (e ∷ es) id = if str_eq e.to id then suc (indegree es id) else indegree es id

abbrev pub lower : (String → ℕ) → String → String → ℕ
lower d id j = if str_eq id j then d j - 1 else d j

-- The loop over the targets of a node: the new numbers, and what is queued.
unfoldable pub relax : (String → ℕ) → List String → (String → ℕ) × List String
relax d [] = (d, [])
relax d (t ∷ ts) =
    let (d', queued) = relax (lower d t) ts in (d', if d t == 1 then t ∷ queued else queued)

abbrev pub visits_all : ℕ → Option ℕ → Bool
visits_all n none = false
visits_all n (some visited) = visited == n

abbrev pub is_empty : List StageConfig → Bool
is_empty [] = true
is_empty (n ∷ ns) = false

module _ (es : List EdgeConfig) where
  -- The number of visited nodes.
  unfoldable pub visit_nodes : ℕ → (String → ℕ) → List String → ℕ → Option ℕ
  visit_nodes fuel d [] visited = some visited
  visit_nodes zero d (cur ∷ q) visited = none
  visit_nodes (suc fuel) d (cur ∷ q) visited =
      let (d', queued) = relax d (targets es cur) in visit_nodes fuel d' (q ++ queued) (suc visited)

  -- The graph passes.
  unfoldable pub has_no_cycle : List String → Bool
  has_no_cycle ids =
      visits_all (length ids)
        (visit_nodes (length ids) (indegree es) (keep_if (λ id. indegree es id == 0) ids) 0)

-- The settings of nodes are read by `std::stof` and `std::stoi`.
module _ {F : Type 0} (stof : String → Option F) (is_above_zero is_in_range : F → Bool)
    (stoi : String → Option ℤ) where
  unfoldable pub check_pipeline : PipelineConfig → Bool
  check_pipeline p =
      not (is_empty p.nodes)
      && (check_nodes stof is_above_zero is_in_range stoi [] p.nodes
          && (check_edges (node_ids p.nodes) p.edges && has_no_cycle p.edges (node_ids p.nodes)))

  -- The pipelines, with the identifiers seen before them.
  unfoldable pub check_pipelines : List String → List PipelineConfig → Bool
  check_pipelines seen [] = true
  check_pipelines seen (p ∷ ps) =
      not (str_eq p.id "")
      && (not (contains seen p.id) && (check_pipeline p && check_pipelines (p.id ∷ seen) ps))

  unfoldable pub validate_pipeline_graphs : AppConfig → Bool
  validate_pipeline_graphs cfg = check_pipelines [] cfg.pipelines
