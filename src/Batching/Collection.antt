-- ===== src/Batching/Collection.antt =====
-- What the inner loop of src/pipeline/BatchScheduler.cpp keeps of a batch.
use inference_server.Shared.{
  ◌≡◌, refl, ℕ, suc, ◌≤◌, true, false, ◌&&◌, ◌||◌, String, List, [], ◌∷◌, ◌++◌, if◌then◌else◌,
  length, length-append, leb, arith, inl, inr, Bool-cases,
}
use inference_server.Shared.Int.{ℤ, pos}
use inference_server.Batching.{
  Frame, Batch, is_empty, is_mismatch, add_frame, name_model, StreamMeta,
}
use inference_server.Batching.Scheduler.{Poll, no_buffer, nothing, pops, visit, collect}

pub is_empty-length : (xs : List StreamMeta) → is_empty xs ≡ leb (length xs) 0
is_empty-length [] = refl
is_empty-length (x ∷ xs) = ground arith

grown : (xs : List StreamMeta) (x : StreamMeta) → is_empty (xs ++ x ∷ []) ≡ true → ⊥
grown [] x e = cc
grown (y ∷ xs) x e = cc

module _ {X : Type 0} where
  -- The frames are of one kind, and there is one description for each.
  pub record IsHomogeneous (b : Batch X) : Type 0 where
    pub exclusive : (b.is_ascend && b.is_gpu) ≡ false
    pub ascend_size : length b.ascend_frames ≡ (if b.is_ascend then length b.metas else 0)
    pub gpu_size : length b.gpu_frames ≡ (if b.is_gpu then length b.metas else 0)
    pub cpu_size : length b.frames ≡ (if b.is_ascend || b.is_gpu then 0 else length b.metas)
    pub fresh : is_empty b.metas ≡ true → (b.is_ascend || b.is_gpu) ≡ false

  add_frame-IsHomogeneous :
      (id : String) (b : Batch X) (f : Frame X)
      → is_mismatch b f ≡ false
      → IsHomogeneous b
      → IsHomogeneous (add_frame id b f)
  unfolding add_frame is_mismatch
  add_frame-IsHomogeneous id b f ok h = elim (Bool-cases f.is_ascend) [
    | inl a ↦ rw a (record {
      exclusive = ground (
        arith,
        h.exclusive,
        h.fresh,
        h.exclusive,
        is_empty-length b.metas,
        length-append b.metas (name_model id f.meta ∷ []),
        length-append b.ascend_frames (f.ascend_buf ∷ []),
      );
      ascend_size = ground (
        arith,
        h.ascend_size,
        h.fresh,
        h.exclusive,
        is_empty-length b.metas,
        length-append b.metas (name_model id f.meta ∷ []),
        length-append b.ascend_frames (f.ascend_buf ∷ []),
      );
      gpu_size = ground (
        arith,
        h.gpu_size,
        h.fresh,
        h.exclusive,
        is_empty-length b.metas,
        length-append b.metas (name_model id f.meta ∷ []),
        length-append b.ascend_frames (f.ascend_buf ∷ []),
      );
      cpu_size = ground (
        arith,
        h.cpu_size,
        h.fresh,
        h.exclusive,
        is_empty-length b.metas,
        length-append b.metas (name_model id f.meta ∷ []),
        length-append b.ascend_frames (f.ascend_buf ∷ []),
      );
      fresh = λ e. absurd (grown b.metas _ e);
    })
    | inr a ↦ elim (Bool-cases f.is_gpu) [
      | inl g ↦
          rw (a, g)
            (record {
              exclusive = ground (
                arith,
                h.exclusive,
                h.fresh,
                h.exclusive,
                is_empty-length b.metas,
                length-append b.metas (name_model id f.meta ∷ []),
                length-append b.gpu_frames (f.gpu_buf ∷ []),
              );
              ascend_size = ground (
                arith,
                h.ascend_size,
                h.fresh,
                h.exclusive,
                is_empty-length b.metas,
                length-append b.metas (name_model id f.meta ∷ []),
                length-append b.gpu_frames (f.gpu_buf ∷ []),
              );
              gpu_size = ground (
                arith,
                h.gpu_size,
                h.fresh,
                h.exclusive,
                is_empty-length b.metas,
                length-append b.metas (name_model id f.meta ∷ []),
                length-append b.gpu_frames (f.gpu_buf ∷ []),
              );
              cpu_size = ground (
                arith,
                h.cpu_size,
                h.fresh,
                h.exclusive,
                is_empty-length b.metas,
                length-append b.metas (name_model id f.meta ∷ []),
                length-append b.gpu_frames (f.gpu_buf ∷ []),
              );
              fresh = λ e. absurd (grown b.metas _ e);
            })
      | inr g ↦
          rw (a, g)
            (record {
              exclusive = ground (
                arith,
                h.exclusive,
                h.fresh,
                h.exclusive,
                is_empty-length b.metas,
                length-append b.metas (name_model id f.meta ∷ []),
                length-append b.frames (f.image ∷ []),
              );
              ascend_size = ground (
                arith,
                h.ascend_size,
                h.fresh,
                h.exclusive,
                is_empty-length b.metas,
                length-append b.metas (name_model id f.meta ∷ []),
                length-append b.frames (f.image ∷ []),
              );
              gpu_size = ground (
                arith,
                h.gpu_size,
                h.fresh,
                h.exclusive,
                is_empty-length b.metas,
                length-append b.metas (name_model id f.meta ∷ []),
                length-append b.frames (f.image ∷ []),
              );
              cpu_size = ground (
                arith,
                h.cpu_size,
                h.fresh,
                h.exclusive,
                is_empty-length b.metas,
                length-append b.metas (name_model id f.meta ∷ []),
                length-append b.frames (f.image ∷ []),
              );
              fresh = λ e. absurd (grown b.metas _ e);
            })
    ]
  ]

  module _ (id : String) (bound : ℤ) where
    visit-IsHomogeneous :
        (b : Batch X) (p : Poll X) → IsHomogeneous b → IsHomogeneous (visit id bound b p).0
    unfolding visit
    visit-IsHomogeneous b no_buffer h = h
    visit-IsHomogeneous b nothing h = h
    visit-IsHomogeneous b (pops f) h = elim (Bool-cases (is_mismatch b f)) [
      | inl e ↦ rw e h
      | inr e ↦ rw e (add_frame-IsHomogeneous id b f e h)
    ]

    pub collect-IsHomogeneous :
        (poll : String → Poll X) (b : Batch X) (sids : List String)
        → IsHomogeneous b
        → IsHomogeneous (collect id bound poll b sids)
    unfolding collect
    collect-IsHomogeneous poll b [] h = h
    collect-IsHomogeneous poll b (sid ∷ sids) h =
        let h' = visit-IsHomogeneous b (poll sid) h in
        elim (Bool-cases (visit id bound b (poll sid)).1) [
          | inl e ↦ rw e h'
          | inr e ↦ rw e (collect-IsHomogeneous poll (visit id bound b (poll sid)).0 sids h')
        ]

  length-add_frame :
      (id : String) (b : Batch X) (f : Frame X)
      → length (add_frame id b f).metas ≡ suc (length b.metas)
  unfolding add_frame
  length-add_frame id b f = elim (Bool-cases f.is_ascend) [
    | inl a ↦ rw a (omega (arith, length-append b.metas (name_model id f.meta ∷ [])))
    | inr a ↦ elim (Bool-cases f.is_gpu) [
      | inl g ↦ rw (a, g) (omega (arith, length-append b.metas (name_model id f.meta ∷ [])))
      | inr g ↦ rw (a, g) (omega (arith, length-append b.metas (name_model id f.meta ∷ [])))
    ]
  ]

  -- The batch never outgrows the bound.
  module _ (id : String) (n : ℕ) where
    visit-le :
        (b : Batch X) (p : Poll X)
        → length b.metas ≤ n
        → (length (visit id (pos (suc n)) b p).0.metas ≤ suc n)
          × ((visit id (pos (suc n)) b p).1 ≡ false
              → length (visit id (pos (suc n)) b p).0.metas ≤ n)
    unfolding visit
    visit-le b no_buffer h = (omega arith, λ e. h)
    visit-le b nothing h = (omega arith, λ e. h)
    visit-le b (pops f) h = elim (Bool-cases (is_mismatch b f)) [
      | inl e ↦ rw e (omega arith, λ e. h)
      | inr e ↦
          rw e
            (omega (arith, length-add_frame id b f), λ e'. ground (arith, length-add_frame id b f))
    ]

    pub collect-le :
        (poll : String → Poll X) (b : Batch X) (sids : List String)
        → length b.metas ≤ n
        → length (collect id (pos (suc n)) poll b sids).metas ≤ suc n
    unfolding collect
    collect-le poll b [] h = omega arith
    collect-le poll b (sid ∷ sids) h =
        let (le, below) = visit-le b (poll sid) h in
        elim (Bool-cases (visit id (pos (suc n)) b (poll sid)).1) [
          | inl e ↦ rw e le
          | inr e ↦ rw e (collect-le poll (visit id (pos (suc n)) b (poll sid)).0 sids (below e))
        ]
