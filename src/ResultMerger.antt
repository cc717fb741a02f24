-- ===== src/ResultMerger.antt =====
-- src/pipeline/ResultMerger.cpp and include/pipeline/ResultMerger.h: results wait for the attributes of
-- their detections, or until their deadline.
--
-- The publisher is the list of the results it was given. Type parameters stand for the other members
-- of a detection (`D`) and of a result (`R`), and `T` for a `double`, which `show` prints. The steady
-- clock counts milliseconds. The keys of the map are `stream_id + ":" + std::to_string(frame_ts)`.
pub mod Conservation
mod Samples
use Prim.Native.String.{◌++◌ as concat}
use inference_server.Shared.{
  Bool, true, false, ℕ, zero, suc, ◌+◌, ltb, leb, ◌==◌, String, List, [], ◌∷◌, ◌++◌, Option, none,
  some, if◌then◌else◌, lookup, insert, erase, str_eq, is_some,
}
use inference_server.Shared.Int.{ℤ, pos, negsuc}

pub record Detection (D : Type 0) : Type 0 where
  pub attributes : List (String × String)
  pub others : D

pub record InferResult (R D T : Type 0) : Type 0 where
  pub stream_id : String
  pub frame_ts : T
  pub detections : List (Detection D)
  pub others : R

pub record PendingEntry (R D T : Type 0) : Type 0 where
  pub result : InferResult R D T
  pub expected : ℤ
  pub received : ℕ
  pub deadline : ℕ

pub record ResultMerger (R D T : Type 0) : Type 0 where
  pub published : List (InferResult R D T)
  pub max_wait_ms : ℕ
  pub pending : List (String × PendingEntry R D T)

-- `received >= expected`
abbrev pub reached : ℕ → ℤ → Bool
reached received (pos n) = leb n received
reached received (negsuc n) = true

abbrev pub is_zero : ℤ → Bool
is_zero (pos n) = n == 0
is_zero (negsuc n) = false

module _ {D : Type 0} where
  unfoldable pub set_attribute : List (Detection D) → ℕ → String → String → List (Detection D)
  set_attribute [] i key value = []
  set_attribute (d ∷ ds) zero key value =
      record d { attributes = insert d.attributes key value } ∷ ds
  set_attribute (d ∷ ds) (suc i) key value = d ∷ set_attribute ds i key value

  -- The index is tested against the size; one out of range changes nothing.
  abbrev pub set_attribute_at : List (Detection D) → ℤ → String → String → List (Detection D)
  set_attribute_at ds (pos i) key value = set_attribute ds i key value
  set_attribute_at ds (negsuc i) key value = ds

abbrev pub key_of {ℓ} : {T : Type ℓ} → (T → String) → String → T → String
key_of show stream_id frame_ts = concat stream_id (concat ":" (show frame_ts))

-- The calls of the pipeline, with the clock's value where it is read.
pub data Call (R D T : Type 0) : Type 0 where
  registers : ℕ → InferResult R D T → ℤ → Call R D T
  adds : String → T → ℤ → String → String → Call R D T
  flushes : ℕ → Call R D T

module _ {R : Type 0} {D : Type 0} {T : Type 0} where
  pub make : ℕ → ResultMerger R D T
  make max_wait_ms = record { published = []; max_wait_ms = max_wait_ms; pending = [] }

  abbrev pub publish : ResultMerger R D T → InferResult R D T → ResultMerger R D T
  publish m r = record m { published = m.published ++ r ∷ [] }

  unfoldable pub publish_and_erase :
      ResultMerger R D T → String → PendingEntry R D T → ResultMerger R D T
  publish_and_erase m key entry = record (publish m entry.result) { pending = erase m.pending key }

  -- The entry after an attribute arrived.
  unfoldable pub receive : PendingEntry R D T → ℤ → String → String → PendingEntry R D T
  receive entry det_idx key value = record entry {
    result = record (entry.result) {
      detections = set_attribute_at entry.result.detections det_idx key value;
    };
    received = entry.received + 1;
  }

  -- The entry was changed in place; it is published and erased where all attributes have arrived.
  abbrev pub settle : ResultMerger R D T → String → PendingEntry R D T → ResultMerger R D T
  settle m key entry =
      if reached entry.received entry.expected
      then publish_and_erase m key entry
      else record m { pending = insert m.pending key entry }

  abbrev pub add_found :
      ResultMerger R D T
      → String
      → ℤ
      → String
      → String
      → Option (PendingEntry R D T)
      → ResultMerger R D T
  add_found m key det_idx name value none = m
  add_found m key det_idx name value (some entry) = settle m key (receive entry det_idx name value)

  -- The loop of `flushExpired`: what is published, and what stays.
  unfoldable pub flush :
      ℕ
      → List (String × PendingEntry R D T)
      → List (InferResult R D T) × List (String × PendingEntry R D T)
  flush now [] = ([], [])
  flush now ((key, entry) ∷ rest) =
      let r = flush now rest in
      if leb entry.deadline now then (entry.result ∷ r.0, r.1) else (r.0, (key, entry) ∷ r.1)

  unfoldable pub flush_expired : ℕ → ResultMerger R D T → ResultMerger R D T
  flush_expired now m =
      let r = flush now m.pending in record m { published = m.published ++ r.0; pending = r.1 }

  module _ (show : T → String) where
    -- `emplace` leaves an entry that has the key as it is.
    unfoldable pub register_primary :
        ℕ → ResultMerger R D T → InferResult R D T → ℤ → ResultMerger R D T
    register_primary now m result expected_count =
        let key = key_of show result.stream_id result.frame_ts in
        if is_zero expected_count
        then publish m result
        else if is_some (lookup m.pending key)
        then m
        else record m {
          pending = insert m.pending key (record {
            result = result;
            expected = expected_count;
            received = 0;
            deadline = now + m.max_wait_ms;
          });
        }

    unfoldable pub add_attribute :
        ResultMerger R D T → String → T → ℤ → String → String → ResultMerger R D T
    add_attribute m stream_id frame_ts det_idx name value =
        let key = key_of show stream_id frame_ts in
        add_found m key det_idx name value (lookup m.pending key)

    unfoldable pub step : ResultMerger R D T → Call R D T → ResultMerger R D T
    step m (registers now result expected_count) = register_primary now m result expected_count
    step m (adds stream_id frame_ts det_idx name value) =
        add_attribute m stream_id frame_ts det_idx name value
    step m (flushes now) = flush_expired now m

    unfoldable pub run : ResultMerger R D T → List (Call R D T) → ResultMerger R D T
    run m [] = m
    run m (c ∷ cs) = run (step m c) cs
