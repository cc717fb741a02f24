-- ===== src/Batching/Delivery.antt =====
-- The batches that the loop of src/pipeline/BatchScheduler.cpp sends.
use inference_server.Shared.{
  ◌≡◌, refl, ℕ, suc, ◌≤◌, Bool, true, false, List, [], ◌∷◌, Option, none, if◌then◌else◌, length,
  leb, arith, inl, inr, Bool-cases, All, All-append,
}
use inference_server.Shared.Int.{pos}
use inference_server.Config.{ModelConfig}
use inference_server.Batching.{Batch, size, is_empty, int_geq, empty_batch}
use inference_server.Batching.Scheduler.{
  Round, Loop, preferred_sizes, max_bs, refresh, collect, should_flush, finish, round, sent,
  schedule_loop, initial, add_delay,
}
use inference_server.Batching.Collection.{
  IsHomogeneous, collect-IsHomogeneous, collect-le, is_empty-length,
}
use inference_server.Batching.Conservation.{refresh-batch}
use inference_server.Batching.Flushing.{any-front}

module _ {X : Type 0} where
  -- A batch that is sent: its frames are of one kind, and there are between one and `max` of them.
  pub record IsDelivered (max : ℕ) (b : Batch X) : Type 0 where
    pub homogeneous : IsHomogeneous b
    pub nonempty : is_empty b.metas ≡ false
    pub bounded : length b.metas ≤ max

  -- Between rounds the batch is of one kind and below the bound.
  pub record IsWaiting (n : ℕ) (l : Loop X) : Type 0 where
    pub homogeneous : IsHomogeneous l.batch
    pub below : length l.batch.metas ≤ n

  empty_batch-IsHomogeneous : IsHomogeneous (empty_batch {X = X})
  empty_batch-IsHomogeneous = record {
    exclusive = refl;
    ascend_size = refl;
    gpu_size = refl;
    cpu_size = refl;
    fresh = λ e. refl;
  }

  abbrev AllSent : ℕ → Option (Batch X) × Loop X → Type 0
  AllSent n (o, l) = All (IsDelivered (suc n)) (sent o) × IsWaiting n l

  module _ (cfg : ModelConfig) (n : ℕ) (bound : max_bs cfg ≡ pos (suc n)) where
    -- A batch that is not sent is below the bound.
    kept-le :
        (timeout : Bool) (b : Batch X)
        → should_flush (preferred_sizes cfg) timeout b ≡ false
        → length b.metas ≤ n
    unfolding should_flush
    kept-le timeout b e = elim (Bool-cases (int_geq (size b) (pos (suc n)))) [
      | inl full ↦
          ground
            (arith, any-front (preferred_sizes cfg) (size b) n bound full, is_empty-length b.metas)
      | inr f ↦ ground arith
    ]

    sent-nonempty :
        (timeout : Bool) (b : Batch X)
        → should_flush (preferred_sizes cfg) timeout b ≡ true
        → is_empty b.metas ≡ false
    unfolding should_flush
    sent-nonempty timeout b e = ground arith

    finish-AllSent :
        (r : Round X) (l : Loop X)
        → IsHomogeneous l.batch
        → length l.batch.metas ≤ suc n
        → AllSent n (finish cfg r l)
    unfolding finish
    finish-AllSent r l h le =
        let timeout = leb l.deadline r.checked in
        elim (Bool-cases (should_flush (preferred_sizes cfg) timeout l.batch)) [
          | inl e ↦ rw e (
            (
              record { homogeneous = h; nonempty = sent-nonempty timeout l.batch e; bounded = le },
              tt,
            ),
            record { homogeneous = empty_batch-IsHomogeneous; below = omega arith },
          )
          | inr e ↦ rw e (idle (is_empty l.batch.metas) timeout (kept-le timeout l.batch e))
        ]
      where
        next : ℕ
        next = add_delay r.restarted cfg.max_queue_delay_us

        idle :
            (empty timeout : Bool)
            → length l.batch.metas ≤ n
            → AllSent n (
                if empty
                then (none, if timeout then record l { deadline = next } else l)
                else (none, l))
        idle true true k = (tt, record { homogeneous = h; below = k })
        idle true false k = (tt, record { homogeneous = h; below = k })
        idle false timeout k = (tt, record { homogeneous = h; below = k })

    round-AllSent : (r : Round X) (l : Loop X) → IsWaiting n l → AllSent n (round cfg r l)
    unfolding round
    round-AllSent r l w =
        let l' = refresh cfg.id r l in
        rw (bound, refresh-batch cfg.id r l)
          (finish-AllSent r
            (record l' { batch = collect cfg.id (pos (suc n)) r.poll l.batch l'.model_streams })
            (collect-IsHomogeneous cfg.id (pos (suc n)) r.poll l.batch l'.model_streams
              w.homogeneous)
            (collect-le cfg.id n r.poll l.batch l'.model_streams w.below))

    schedule_loop-All :
        (rs : List (Round X)) (l : Loop X)
        → IsWaiting n l
        → All (IsDelivered (suc n)) (schedule_loop cfg rs l).0
    unfolding schedule_loop
    schedule_loop-All [] l w = tt
    schedule_loop-All (r ∷ rs) l w =
        let (delivered, w') = round-AllSent r l w in
        All-append (IsDelivered (suc n)) (sent (round cfg r l).0) _ delivered
          (schedule_loop-All rs (round cfg r l).1 w')

    -- Every batch that the scheduler sends, in any number of rounds, holds at least one frame and
    -- no more than the largest preferred size, where that is positive; its frames are of one kind,
    -- with one description for each.
    pub schedule_loop-IsDelivered :
        (rs : List (Round X)) (now : ℕ)
        → All (IsDelivered (suc n)) (schedule_loop cfg rs (initial cfg now)).0
    schedule_loop-IsDelivered rs now =
        schedule_loop-All rs (initial cfg now)
          (record { homogeneous = empty_batch-IsHomogeneous; below = omega arith })
