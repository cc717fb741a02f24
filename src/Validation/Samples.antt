-- ===== src/Validation/Samples.antt =====
-- The checks of src/common/Config.cpp on the deployment.
use inference_server.Shared.{
  ◌≡◌, refl, ◌↔◌, ℕ, Bool, true, false, List, Option, String, [], ◌∷◌, some, lookup, find_id,
}
use inference_server.Deployment.{staged, manager, pipeline, task, config, edge}
use inference_server.Graph.{GraphExecutor, build, add_edges, has_stages}
use inference_server.Graph.Building.{IsFresh}
use inference_server.Graph.Routing.{IsRouted}
use inference_server.TaskManager.{TaskManager}
use inference_server.Validation.{
  check_edges, node_ids, check_edge, check_nodes, check_node, validate_tasks, check_tasks,
  check_task,
}
use inference_server.Shared.Int.{ℤ, pos}
use inference_server.Config.{PipelineConfig}
use inference_server.Validation.Cycles.{
  check_pipeline, has_no_cycle, visit_nodes, indegree, relax, targets,
}
use inference_server.Validation.Sorting.{IsTopological}
use inference_server.Validation.Graphs.{check_pipeline-IsTopological}
use inference_server.Validation.Acceptance.{check_edges-IsRouted}

abbrev with_task : TaskManager String
with_task = record manager { cfg = record config { tasks = task ∷ [] } }

with_task-accepted : validate_tasks with_task.cfg ≡ true
unfolding validate_tasks check_tasks check_task find_id
with_task-accepted = refl

abbrev built : GraphExecutor String
built = add_edges staged pipeline.edges

staged-build : build staged ≡ some built
unfolding build has_stages lookup
staged-build = refl

staged-IsFresh : IsFresh staged
staged-IsFresh = record { outgoing = refl; incoming = refl; edges = refl }

staged-check_edges : check_edges (node_ids staged.cfg.nodes) staged.cfg.edges ≡ true
unfolding check_edges check_edge node_ids
staged-check_edges = refl

check_edges-IsRouted_example : IsRouted built
check_edges-IsRouted_example =
    check_edges-IsRouted staged built staged-IsFresh staged-check_edges staged-build

-- A parser of numbers that finds one.
abbrev stof : String → Option ℕ
stof s = some 1

abbrev stoi : String → Option ℤ
stoi s = some (pos 1)

abbrev any_number : ℕ → Bool
any_number x = true

nodes-accepted : check_nodes stof any_number any_number stoi [] pipeline.nodes ≡ true
unfolding check_nodes check_node
nodes-accepted = refl

edges-accepted : check_edges (node_ids pipeline.nodes) pipeline.edges ≡ true
unfolding check_edges check_edge node_ids
edges-accepted = refl

check_pipeline-IsTopological_example :
    (check_pipeline stof any_number any_number stoi pipeline ≡ true)
    ↔ ((order : List String) × IsTopological (node_ids pipeline.nodes) pipeline.edges order)
check_pipeline-IsTopological_example =
    check_pipeline-IsTopological stof any_number any_number stoi pipeline refl nodes-accepted
      edges-accepted

-- The deployment's pipeline passes, and one with an edge back does not.
pipeline-accepted : check_pipeline stof any_number any_number stoi pipeline ≡ true
unfolding check_pipeline check_nodes check_node check_edges check_edge node_ids has_no_cycle
    visit_nodes indegree relax targets
pipeline-accepted = refl

abbrev cyclic : PipelineConfig
cyclic = record pipeline { edges = edge ∷ record edge { from = "out"; to = "in" } ∷ [] }

cyclic-refused : check_pipeline stof any_number any_number stoi cyclic ≡ false
unfolding check_pipeline check_nodes check_node check_edges check_edge node_ids has_no_cycle
    visit_nodes indegree relax targets
cyclic-refused = refl
