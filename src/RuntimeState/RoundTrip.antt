-- ===== src/RuntimeState/RoundTrip.antt =====
-- What src/common/RuntimeState.cpp writes for a source, a pipeline and a task is read back.
use inference_server.Shared.{
  ◌≡◌, refl, true, false, String, List, [], ◌∷◌, some, map, lookup, All, All-mono,
}
use inference_server.Shared.Options.{traverse-map, All-of}
use inference_server.Config.{
  PipelineSourceConfig, StageConfig, EdgeConfig, PipelineConfig, TaskConfig, EdgeDropPolicy, block,
  drop_oldest, drop_newest,
}
use inference_server.Config.Names.{
  parse_edge_drop_policy, parse_sampling_mode-to_str, edge_drop_policy_to_json,
  sampling_mode_to_str,
}
use inference_server.Json.{Json, IsLawful, is_map}
use inference_server.Json.Readers.{
  value_text-object, value_int-object, value_bool-object, value_elements-object,
}
use inference_server.RuntimeState.Maps.{read_with-object_items}
use inference_server.RuntimeState.Writing.{
  source_fields, source_to_json, stage_fields, stage_to_json, edge_fields, edge_to_json,
  pipeline_fields, pipeline_to_json, task_fields, task_to_json,
}
use inference_server.RuntimeState.Reading.{
  source_from_json, read_with, object_items, stage_from_json, read_policy, edge_from_json,
  pipeline_from_json, task_from_json,
}

module _ (J : Json) (laws : IsLawful J) where
  open J use {Value, text, object, find}

  pub source_from_json-to_json :
      (s : PipelineSourceConfig) → source_from_json J (source_to_json J s) ≡ some s
  unfolding source_from_json source_to_json lookup
  source_from_json-to_json s =
      let m = source_fields J s in
      rw
        (
          value_text-object J laws m "id" "" s.id refl,
          value_text-object J laws m "url" "" s.url refl,
          value_int-object J laws m "reconnect_delay_ms" _ s.reconnect_delay_ms refl,
          value_int-object J laws m "max_reconnect_delay_ms" _ s.max_reconnect_delay_ms refl,
          value_int-object J laws m "degraded_threshold" _ s.degraded_threshold refl,
          value_int-object J laws m "max_reconnect_attempts" _ s.max_reconnect_attempts refl,
          value_int-object J laws m "open_timeout_ms" _ s.open_timeout_ms refl,
          value_int-object J laws m "read_timeout_ms" _ s.read_timeout_ms refl,
        )
        refl

  read_with-member :
      (m : List (String × String)) (id type : String)
      → is_map J.less m ≡ true
      → read_with J [] (
          object_items J
            (lookup (stage_fields J (record { id = id; type = type; with_map = m })) "with"))
        ≡ some m
  unfolding lookup read_with
  read_with-member [] id type h = refl
  read_with-member (e ∷ m) id type h = read_with-object_items J laws (e ∷ m) h

  pub stage_from_json-to_json :
      (n : StageConfig)
      → is_map J.less n.with_map ≡ true
      → stage_from_json J (stage_to_json J n) ≡ some n
  unfolding stage_from_json stage_to_json lookup
  stage_from_json-to_json n h =
      let m = stage_fields J n in
      rw
        (
          value_text-object J laws m "id" "" n.id refl,
          value_text-object J laws m "type" "" n.type refl,
          laws.find_object m "with",
          read_with-member n.with_map n.id n.type h,
        )
        refl

  read_policy-text :
      (p : EdgeDropPolicy) → read_policy J (some (text (edge_drop_policy_to_json p))) ≡ some p
  unfolding edge_drop_policy_to_json parse_edge_drop_policy
  read_policy-text block = rw (laws.is_text_text "block", laws.as_text_text "block") refl
  read_policy-text drop_oldest =
      rw (laws.is_text_text "drop_oldest", laws.as_text_text "drop_oldest") refl
  read_policy-text drop_newest =
      rw (laws.is_text_text "drop_newest", laws.as_text_text "drop_newest") refl

  pub edge_from_json-to_json : (e : EdgeConfig) → edge_from_json J (edge_to_json J e) ≡ some e
  unfolding edge_from_json edge_to_json lookup
  edge_from_json-to_json e =
      let m = edge_fields J e in
      rw
        (
          value_text-object J laws m "from" "" e.from refl,
          value_text-object J laws m "to" "" e.to refl,
          value_int-object J laws m "capacity" _ e.capacity refl,
          laws.find_object m "drop_policy",
          read_policy-text e.drop_policy,
        )
        refl

  -- The options of every stage are those of a `std::map`.
  unfoldable pub HasMaps : PipelineConfig → Type 0
  HasMaps p = All (λ n. is_map J.less n.with_map ≡ true) p.nodes

  pub pipeline_from_json-to_json :
      (p : PipelineConfig) → HasMaps p → pipeline_from_json J (pipeline_to_json J p) ≡ some p
  unfolding pipeline_from_json pipeline_to_json lookup HasMaps
  pipeline_from_json-to_json p h =
      let m = pipeline_fields J p in
      rw
        (
          value_text-object J laws m "id" "" p.id refl,
          value_elements-object J laws m "nodes" (map (stage_to_json J) p.nodes) refl,
          traverse-map (stage_to_json J) (stage_from_json J) p.nodes
              (All-mono _ _ p.nodes stage_from_json-to_json h),
          value_elements-object J laws m "edges" (map (edge_to_json J) p.edges) refl,
          traverse-map (edge_to_json J) (edge_from_json J) p.edges
              (All-of _ p.edges edge_from_json-to_json),
        )
        refl

  pub task_from_json-to_json : (t : TaskConfig) → task_from_json J (task_to_json J t) ≡ some t
  unfolding task_from_json task_to_json lookup
  task_from_json-to_json t =
      let m = task_fields J t in
      rw
        (
          value_text-object J laws m "id" "" t.id refl,
          value_text-object J laws m "source_id" "" t.source_id refl,
          value_text-object J laws m "pipeline_id" "" t.pipeline_id refl,
          value_int-object J laws m "sample_fps" _ t.sample_fps refl,
          value_text-object J laws m "sampling_mode" "frame_count"
              (sampling_mode_to_str t.sampling_mode) refl,
          parse_sampling_mode-to_str t.sampling_mode,
          value_bool-object J laws m "use_hwdec" false t.use_hwdec refl,
          value_bool-object J laws m "use_ascend_dvpp" false t.use_ascend_dvpp refl,
          value_int-object J laws m "ascend_device_id" _ t.ascend_device_id refl,
        )
        refl
