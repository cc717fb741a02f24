-- ===== src/ResultMerger/Conservation.antt =====
-- No result of src/pipeline/ResultMerger.cpp is lost or published twice, but for one whose key is taken.
use inference_server.Shared.{
  ◌≡◌, refl, ap, Bool, true, false, ℕ, ◌+◌, String, List, [], ◌∷◌, Option, none, some,
  if◌then◌else◌, lookup, insert, erase, lookup-insert, lookup-erase, eq_iff, is_some, length,
  length-append, arith, Bool-cases, inl, inr,
}
use inference_server.Shared.Int.{ℤ}
use inference_server.ResultMerger.{
  InferResult, PendingEntry, ResultMerger, reached, is_zero, publish_and_erase, receive, settle,
  add_found, flush, flush_expired, key_of, register_primary, add_attribute, Call, registers, adds,
  flushes, step, run, make,
}

module _ {V : Type 0} where
  abbrev has_key : List (String × V) → String → Bool
  has_key m k = is_some (lookup m k)

  -- No key occurs twice.
  abbrev pub AreDistinct : List (String × V) → Type 0
  AreDistinct [] = Unit
  AreDistinct ((k, v) ∷ m) = (has_key m k ≡ false) × AreDistinct m

  insert-AreDistinct :
      (m : List (String × V)) (k : String) (v : V) → AreDistinct m → AreDistinct (insert m k v)
  unfolding insert lookup
  insert-AreDistinct [] k v h = ground arith
  insert-AreDistinct ((j, w) ∷ m) k v h =
      ground (arith, insert-AreDistinct m k v h.1, lookup-insert m k v j, eq_iff j k, eq_iff k j)

  erase-AreDistinct : (m : List (String × V)) (k : String) → AreDistinct m → AreDistinct (erase m k)
  unfolding erase lookup
  erase-AreDistinct [] k h = tt
  erase-AreDistinct ((j, w) ∷ m) k h = ground (arith, erase-AreDistinct m k h.1, lookup-erase m k j)

  length-insert :
      (m : List (String × V)) (k : String) (v : V)
      → length (insert m k v) ≡ (if has_key m k then length m else length m + 1)
  unfolding insert lookup
  length-insert [] k v = ground arith
  length-insert ((j, w) ∷ m) k v = ground (arith, length-insert m k v)

  length-erase :
      (m : List (String × V)) (k : String)
      → AreDistinct m
      → length (erase m k) + (if has_key m k then 1 else 0) ≡ length m
  unfolding erase lookup
  length-erase [] k h = ground arith
  length-erase ((j, w) ∷ m) k h = ground (arith, length-erase m k h.1, eq_iff j k)

module _ {R : Type 0} {D : Type 0} {T : Type 0} where
  -- The results that are published or pending.
  abbrev pub load : ResultMerger R D T → ℕ
  load m = length m.published + length m.pending

  -- The results are as many as before, with `n` more, and the keys are still distinct.
  abbrev Grows : ℕ → ResultMerger R D T → ResultMerger R D T → Type 0
  Grows n m m' = (load m' ≡ load m + n) × AreDistinct m'.pending

  Grows-then :
      (a b c : ResultMerger R D T) (n k : ℕ) → Grows n a b → Grows k b c → Grows (n + k) a c
  Grows-then a b c n k s t = (omega (arith, s.0, t.0), t.1)

  insert-Grows :
      (m : ResultMerger R D T) (key : String) (entry : PendingEntry R D T)
      → AreDistinct m.pending
      → has_key m.pending key ≡ false
      → Grows 1 m (record m { pending = insert m.pending key entry })
  insert-Grows m key entry h k =
      (ground (arith, length-insert m.pending key entry), insert-AreDistinct m.pending key entry h)

  publish_and_erase-Grows :
      (m : ResultMerger R D T) (key : String) (entry : PendingEntry R D T)
      → AreDistinct m.pending
      → has_key m.pending key ≡ true
      → Grows 0 m (publish_and_erase m key entry)
  unfolding publish_and_erase
  publish_and_erase-Grows m key entry h k = (
    ground (arith, length-append m.published (entry.result ∷ []), length-erase m.pending key h),
    erase-AreDistinct m.pending key h,
  )

  settle-Grows :
      (m : ResultMerger R D T) (key : String) (entry : PendingEntry R D T)
      → AreDistinct m.pending
      → has_key m.pending key ≡ true
      → Grows 0 m (settle m key entry)
  settle-Grows m key entry h k = elim (Bool-cases (reached entry.received entry.expected)) [
    | inl e ↦ simp e (publish_and_erase-Grows m key entry h k)
    | inr e ↦ simp e (
      ground (arith, length-insert m.pending key entry),
      insert-AreDistinct m.pending key entry h,
    )
  ]

  add_found-Grows :
      (m : ResultMerger R D T) (key : String) (i : ℤ) (name value : String)
      (o : Option (PendingEntry R D T))
      → AreDistinct m.pending
      → lookup m.pending key ≡ o
      → Grows 0 m (add_found m key i name value o)
  add_found-Grows m key i name value none h found = (omega arith, h)
  add_found-Grows m key i name value (some entry) h found =
      settle-Grows m key (receive entry i name value) h (ap is_some found)

  has_key-flush :
      (now : ℕ) (p : List (String × PendingEntry R D T)) (k : String)
      → has_key p k ≡ false
      → has_key (flush now p).1 k ≡ false
  unfolding flush lookup
  has_key-flush now [] k h = h
  has_key-flush now ((j, e) ∷ p) k h = ground (arith, has_key-flush now p k)

  flush_lem :
      (now : ℕ) (p : List (String × PendingEntry R D T))
      → AreDistinct p
      → (length (flush now p).0 + length (flush now p).1 ≡ length p) × AreDistinct (flush now p).1
  unfolding flush
  flush_lem now [] h = (omega arith, tt)
  flush_lem now ((j, e) ∷ p) h = ground (arith, flush_lem now p h.1, has_key-flush now p j h.0)

  flush_expired-Grows :
      (now : ℕ) (m : ResultMerger R D T) → AreDistinct m.pending → Grows 0 m (flush_expired now m)
  unfolding flush_expired
  flush_expired-Grows now m h = (
    ground (arith, length-append m.published (flush now m.pending).0, flush_lem now m.pending h),
    (flush_lem now m.pending h).1,
  )

  module _ (show : T → String) where
    -- The number of results that a call brings in: a result whose key is pending is dropped.
    abbrev pub accepted : ResultMerger R D T → Call R D T → ℕ
    accepted m (registers now r n) =
        if is_zero n
        then 1
        else if has_key m.pending (key_of show r.stream_id r.frame_ts)
        then 0
        else 1
    accepted m (adds stream_id ts i name value) = 0
    accepted m (flushes now) = 0

    abbrev pub accepted_all : ResultMerger R D T → List (Call R D T) → ℕ
    accepted_all m [] = 0
    accepted_all m (c ∷ cs) = accepted m c + accepted_all (step show m c) cs

    register_primary-Grows :
        (now : ℕ) (m : ResultMerger R D T) (r : InferResult R D T) (n : ℤ)
        → AreDistinct m.pending
        → Grows (accepted m (registers now r n)) m (register_primary show now m r n)
    unfolding register_primary
    register_primary-Grows now m r n h = elim (Bool-cases (is_zero n)) [
      | inl e ↦ simp e (ground (arith, length-append m.published (r ∷ [])), h)
      | inr e ↦ elim (Bool-cases (has_key m.pending (key_of show r.stream_id r.frame_ts))) [
        | inl k ↦ simp (e, k) (omega arith, h)
        | inr k ↦ simp (e, k) (insert-Grows m _ _ h k)
      ]
    ]

    step-Grows :
        (m : ResultMerger R D T) (c : Call R D T)
        → AreDistinct m.pending
        → Grows (accepted m c) m (step show m c)
    unfolding step add_attribute
    step-Grows m (registers now r n) h = register_primary-Grows now m r n h
    step-Grows m (adds stream_id ts i name value) h = add_found-Grows m _ i name value _ h refl
    step-Grows m (flushes now) h = flush_expired-Grows now m h

    run-Grows :
        (m : ResultMerger R D T) (cs : List (Call R D T))
        → AreDistinct m.pending
        → Grows (accepted_all m cs) m (run show m cs)
    unfolding run
    run-Grows m [] h = (omega arith, h)
    run-Grows m (c ∷ cs) h =
        Grows-then m (step show m c) (run show (step show m c) cs) _ _ (step-Grows m c h)
          (run-Grows (step show m c) cs (step-Grows m c h).1)

    -- After any calls on a new merger, the results that were published and those that wait are
    -- together as many as the results that were accepted; a result is not accepted where it has to
    -- wait and another result with its stream and time waits.
    pub run-load :
        (wait : ℕ) (cs : List (Call R D T))
        → load (run show (make wait) cs) ≡ accepted_all (make wait) cs
    unfolding make
    run-load wait cs = omega (arith, (run-Grows (make wait) cs tt).0)
