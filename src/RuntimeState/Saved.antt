-- ===== src/RuntimeState/Saved.antt =====
-- What src/common/RuntimeState.cpp writes for a model and for the whole record of changes is read back,
-- and the file that `saveRuntimeState` leaves is what `loadRuntimeState` reads.
use mathlib.Core.List.{append_assoc, append-nil}
use text.Mathlib.TextPositions.{eq_refl}
use inference_server.Shared.{
  ◌≡◌, ◌≢◌, refl, sym, ap, ◌∙◌, true, String, List, [], ◌∷◌, ◌++◌, Option, some, map, lookup,
  is_some, All, arith,
}
use inference_server.Shared.Options.{traverse-map, All-of}
use inference_server.Shared.Int.{ℤ, pos, int_eq_sound}
use inference_server.Config.{ModelConfig, ModelType, CascadeConfig, unknown, classifier, detector}
use inference_server.Config.Names.{
  parse_yolo_version-to_str, yolo_version_to_str, parse_device_type-to_str, device_type_to_str,
}
use inference_server.Json.{Json, IsLawful, is_map, has_distinct_keys}
use inference_server.Json.Readers.{
  value_text-object, value_int-object, value_float-object, value_elements-object,
}
use inference_server.RuntimeState.Writing.{
  cascade_fields, cascade_to_json, om_members, shape_fields, model_type_to_str, model_fields,
  model_to_json,
}
use inference_server.RuntimeState.Reading.{insert_int, model_type_of, object_items}
use inference_server.RuntimeState.Maps.{is_map-distinct}
use inference_server.RuntimeState.Loading.{
  cascade_from_json, read_shape, read_om_paths, model_from_json,
}

model_type_of-to_str : (t : ModelType) → model_type_of (model_type_to_str t) ≡ t
model_type_of-to_str classifier = refl
model_type_of-to_str detector = refl

module _ (J : Json) (laws : IsLawful J) where
  open J use {Value, text, int, object, find, as_text, as_int}

  pub cascade_from_json-to_json :
      (c : CascadeConfig) → cascade_from_json J (cascade_to_json J c) ≡ some c
  unfolding cascade_from_json cascade_to_json lookup
  cascade_from_json-to_json c =
      let m = cascade_fields J c in
      rw
        (
          value_text-object J laws m "model_id" "" c.model_id refl,
          value_float-object J laws m "crop_expand" _ c.crop_expand refl,
          value_text-object J laws m "attribute_key" "" c.attribute_key refl,
          value_elements-object J laws m "trigger_classes" (map int c.trigger_classes) refl,
          traverse-map int as_int c.trigger_classes (All-of _ c.trigger_classes laws.as_int_int),
        )
        refl

  module _ (show : ℤ → String) (stoi : String → Option ℤ) where
    has_path :
        (m : List (ℤ × String)) (k : ℤ) (v : String) (n : List (ℤ × String))
        → is_some (lookup (om_members J show (m ++ (k, v) ∷ n)) (show k)) ≡ true
    unfolding lookup
    has_path [] k v n = rw (eq_refl (show k)) refl
    has_path ((j, w) ∷ m) k v n = ground (arith, has_path m k v n)

    insert_int-append :
        (m : List (ℤ × String)) (k : ℤ) (v : String) (n : List (ℤ × String))
        → has_distinct_keys (om_members J show (m ++ (k, v) ∷ n)) ≡ true
        → insert_int m k v ≡ m ++ (k, v) ∷ []
    unfolding insert_int has_distinct_keys
    insert_int-append [] k v n h = refl
    insert_int-append ((j, w) ∷ m) k v n h =
        ground (arith, int_eq_sound j k, has_path m k v n, insert_int-append m k v n)

    -- The paths are those of a `std::map` whose keys, as texts, are in the same order and are read back.
    unfoldable pub HasPaths : ModelConfig → Type 0
    HasPaths m =
        (is_map J.less (om_members J show m.om_paths) ≡ true)
        × All (λ e. stoi (show e.0) ≡ some e.0) m.om_paths

    read_om_paths-append :
        (m rest : List (ℤ × String))
        → has_distinct_keys (om_members J show (m ++ rest)) ≡ true
        → All (λ e. stoi (show e.0) ≡ some e.0) rest
        → read_om_paths J stoi m (om_members J show rest) ≡ some (m ++ rest)
    unfolding read_om_paths
    read_om_paths-append m [] h k = ap some (sym (append-nil m))
    read_om_paths-append m ((n, v) ∷ rest) h k =
        rw (k.0, laws.as_text_text v, insert_int-append m n v rest h)
          (read_om_paths-append (m ++ (n, v) ∷ []) rest (rw (append_assoc m ((n, v) ∷ []) rest) h)
            k.1)
        ∙ ap some (append_assoc m ((n, v) ∷ []) rest)

    read_om_paths-object_items :
        (m : ModelConfig)
        → HasPaths m
        → read_om_paths J stoi [] (object_items J (some (object (om_members J show m.om_paths))))
          ≡ some m.om_paths
    unfolding HasPaths
    read_om_paths-object_items m h =
        let om = om_members J show m.om_paths in
        rw (laws.is_object_object om, laws.items_object om h.0)
          (read_om_paths-append [] m.om_paths (is_map-distinct J om h.0) h.1)

    read_shape-object :
        (m : ModelConfig)
        → m.input_shape.batch ≡ pos 1
        → read_shape J (some (object (shape_fields J show m))) ≡ some m.input_shape
    unfolding lookup
    read_shape-object m h =
        let f = shape_fields J show m in
        rw
          (
            laws.is_object_object f,
            value_int-object J laws f "c" _ m.input_shape.channels refl,
            value_int-object J laws f "h" _ m.input_shape.height refl,
            value_int-object J laws f "w" _ m.input_shape.width refl,
            sym h,
          )
          refl

    -- What is not written has its default, and the version has a name.
    unfoldable pub IsWritten : ModelConfig → Type 0
    IsWritten m = (m.version ≢ unknown) × (m.input_shape.batch ≡ pos 1) × HasPaths m

    pub model_from_json-to_json :
        (m : ModelConfig) → IsWritten m → model_from_json J stoi (model_to_json J show m) ≡ some m
    unfolding model_from_json model_to_json lookup IsWritten
    model_from_json-to_json m h =
        let f = model_fields J show m in
        rw
          (
            value_text-object J laws f "id" "" m.id refl,
            value_text-object J laws f "version" "yolov8" (yolo_version_to_str m.version) refl,
            parse_yolo_version-to_str m.version h.0,
            value_text-object J laws f "backend" "cpu" (device_type_to_str m.backend) refl,
            parse_device_type-to_str m.backend,
            value_text-object J laws f "model_type" "detector" (model_type_to_str m.model_type)
                refl,
            model_type_of-to_str m.model_type,
            value_text-object J laws f "onnx_path" "" m.onnx_path refl,
            value_text-object J laws f "engine_path" "" m.engine_path refl,
            value_int-object J laws f "batch_size" _ m.batch_size refl,
            value_float-object J laws f "conf_thresh" _ m.conf_thresh refl,
            value_float-object J laws f "nms_thresh" _ m.nms_thresh refl,
            value_int-object J laws f "device_id" _ m.device_id refl,
            value_int-object J laws f "num_classes" _ m.num_classes refl,
            value_int-object J laws f "buffer_pool_size" _ m.buffer_pool_size refl,
            value_int-object J laws f "instance_count" _ m.instance_count refl,
            value_int-object J laws f "max_queue_delay_us" _ m.max_queue_delay_us refl,
            laws.find_object f "input_shape",
            read_shape-object m h.1,
            laws.find_object f "om_paths",
            read_om_paths-object_items m h.2,
            value_elements-object J laws f "class_names" (map text m.class_names) refl,
            traverse-map text as_text m.class_names (All-of _ m.class_names laws.as_text_text),
            value_elements-object J laws f "device_ids" (map int m.device_ids) refl,
            traverse-map int as_int m.device_ids (All-of _ m.device_ids laws.as_int_int),
            value_elements-object J laws f "preferred_batch_sizes" (map int m.preferred_batch_sizes)
                refl,
            traverse-map int as_int m.preferred_batch_sizes
                (All-of _ m.preferred_batch_sizes laws.as_int_int),
            value_elements-object J laws f "cascade" (map (cascade_to_json J) m.cascade) refl,
            traverse-map (cascade_to_json J) (cascade_from_json J) m.cascade
                (All-of _ m.cascade cascade_from_json-to_json),
          )
          refl
