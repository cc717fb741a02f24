-- ===== src/ModelManager.antt =====
-- src/pipeline/ModelManager.cpp: the models that are loaded, each with the pipeline that serves it.
--
-- A parameter tells for which configurations the start of a pipeline throws, as the making of a backend may.
-- What is destroyed with a pipeline that did not start is not modelled. The calls are those that start a
-- pipeline's workers and scheduler and those that stop them.
pub mod Pipelines
mod Samples
use inference_server.Shared.{
  Bool, true, false, not, String, List, [], ◌∷◌, Option, none, some, if◌then◌else◌, lookup, insert,
  erase, ◌++◌,
}
use inference_server.Config.{ModelConfig, CascadeConfig}

pub data State : Type 0 where
  unloaded loading ready draining unloading : State

-- The primary group with its scheduler, and the groups of the secondary models.
pub record Pipeline : Type 0 where
  pub cfg : ModelConfig
  pub secondary_groups : List ModelConfig
  pub has_router : Bool

pub record ModelEntry : Type 0 where
  pub cfg : ModelConfig
  pub state : State
  pub pipeline : Pipeline

pub record ModelManager : Type 0 where
  pub all_model_cfgs : List (String × ModelConfig)
  pub entries : List (String × ModelEntry)

pub data Call : Type 0 where
  starts stops : Pipeline → Call

-- How a call ends, the manager that it leaves, and what it starts and stops.
pub record Result : Type 0 where
  pub threw : Bool
  pub manager : ModelManager
  pub calls : List Call

unfoldable pub register :
    List (String × ModelConfig) → List ModelConfig → List (String × ModelConfig)
register known [] = known
register known (c ∷ cs) = register (insert known c.id c) cs

-- The constructor.
unfoldable pub make : List ModelConfig → ModelManager
unfolding register
make cfgs = record { all_model_cfgs = register [] cfgs; entries = [] }

-- The secondary models whose configuration is known.
unfoldable pub secondaries : List (String × ModelConfig) → List CascadeConfig → List ModelConfig
secondaries cfgs [] = []
secondaries cfgs (c ∷ cs) =
    let rest = secondaries cfgs cs in
    elim (lookup cfgs c.model_id) [ none ↦ rest | some cfg ↦ cfg ∷ rest ]

abbrev pub is_empty : List ModelConfig → Bool
is_empty [] = true
is_empty (c ∷ cs) = false

abbrev pub is_ready : Option ModelEntry → Bool
is_ready none = false
is_ready (some e) = elim e.state [ ready ↦ true | _ ↦ false ]

abbrev pub load_started : ModelManager → ModelConfig → Option Pipeline → Result
load_started m cfg none = record {
  threw = true;
  manager = record m { entries = erase m.entries cfg.id };
  calls = [];
}
load_started m cfg (some p) = record {
  threw = false;
  manager = record m {
    entries = insert m.entries cfg.id (record { cfg = cfg; state = ready; pipeline = p });
  };
  calls = starts p ∷ [];
}

abbrev pub unload_found : ModelManager → String → Option ModelEntry → Result
unload_found m id none = record { threw = false; manager = m; calls = [] }
unload_found m id (some e) = record {
  threw = false;
  manager = record m { entries = erase m.entries id };
  calls = stops e.pipeline ∷ [];
}

unfoldable pub unload : ModelManager → String → Result
unload m id = unload_found m id (lookup m.entries id)

abbrev pub swap_started :
    ModelManager → String → ModelConfig → ModelEntry → Option Pipeline → Result
swap_started m id new_cfg old none = record { threw = true; manager = m; calls = [] }
swap_started m id new_cfg old (some p) = record {
  threw = false;
  manager = record m {
    entries = insert m.entries id (record { cfg = new_cfg; state = ready; pipeline = p });
  };
  calls = starts p ∷ stops old.pipeline ∷ [];
}

pub data Command : Type 0 where
  loads : ModelConfig → Command
  unloads : String → Command
  swaps : String → ModelConfig → Command

module _ (fails : ModelConfig → Bool) where
  unfoldable pub start_pipeline : List (String × ModelConfig) → ModelConfig → Option Pipeline
  start_pipeline cfgs cfg =
      let groups = secondaries cfgs cfg.cascade in
      if fails cfg
      then none
      else some
          (record { cfg = cfg; secondary_groups = groups; has_router = not (is_empty groups) })

  unfoldable pub load : ModelManager → ModelConfig → Result
  load m cfg =
      let m' = record m { all_model_cfgs = insert m.all_model_cfgs cfg.id cfg } in
      if is_ready (lookup m.entries cfg.id)
      then record { threw = false; manager = m'; calls = [] }
      else load_started m' cfg (start_pipeline m'.all_model_cfgs cfg)

  abbrev pub swap_found : ModelManager → String → ModelConfig → Option ModelEntry → Result
  swap_found m id new_cfg none = load m new_cfg
  swap_found m id new_cfg (some old) =
      swap_started m id new_cfg old (start_pipeline m.all_model_cfgs new_cfg)

  unfoldable pub swap : ModelManager → String → ModelConfig → Result
  swap m id new_cfg = swap_found m id new_cfg (lookup m.entries id)

  unfoldable pub obey : ModelManager → Command → Result
  obey m (loads cfg) = load m cfg
  obey m (unloads id) = unload m id
  obey m (swaps id cfg) = swap m id cfg

  -- The manager after a sequence of calls, and all that they start and stop.
  unfoldable pub obey_all : ModelManager → List Command → ModelManager × List Call
  obey_all m [] = (m, [])
  obey_all m (c ∷ cs) =
      let r = obey m c in let (m', calls) = obey_all r.manager cs in (m', r.calls ++ calls)
