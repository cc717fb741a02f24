-- ===== src/Batching/Conservation.antt =====
-- The frames that src/pipeline/BatchScheduler.cpp takes are sent in the order in which they were taken.
use mathlib.Core.List.{append_assoc, append-nil}
use inference_server.Shared.{
  ◌≡◌, refl, sym, ap, ◌∙◌, ◌||◌, String, List, [], ◌∷◌, ◌++◌, if◌then◌else◌, leb, inl, inr,
  Bool-cases,
}
use inference_server.Shared.Int.{ℤ}
use inference_server.Config.{ModelConfig}
use inference_server.Batching.{
  Frame, Batch, StreamMeta, is_empty, is_mismatch, add_frame, name_model,
}
use inference_server.Batching.Scheduler.{
  Poll, no_buffer, nothing, pops, Round, Loop, visit, collect, refresh, finish, round, sent,
  schedule_loop, should_flush, preferred_sizes, max_bs,
}

module _ {X : Type 0} where
  add_frame-metas :
      (id : String) (b : Batch X) (f : Frame X)
      → (add_frame id b f).metas ≡ b.metas ++ name_model id f.meta ∷ []
  unfolding add_frame
  add_frame-metas id b f = elim (Bool-cases f.is_ascend) [
    | inl a ↦ rw a refl
    | inr a ↦ elim (Bool-cases f.is_gpu) [ inl g ↦ rw (a, g) refl | inr g ↦ rw (a, g) refl ]
  ]

  module _ (id : String) (bound : ℤ) where
    -- The frame that a visit takes: one of another kind than the batch is dropped.
    unfoldable pub admitted : Batch X → Poll X → List StreamMeta
    admitted b (pops f) = if is_mismatch b f then [] else name_model id f.meta ∷ []
    admitted b _ = []

    -- The frames that the visits of a round take.
    unfoldable pub taken : (String → Poll X) → Batch X → List String → List StreamMeta
    taken poll b [] = []
    taken poll b (sid ∷ sids) =
        let (b', full) = visit id bound b (poll sid) in
        admitted b (poll sid) ++ (if full then [] else taken poll b' sids)

    visit-metas :
        (b : Batch X) (p : Poll X) → (visit id bound b p).0.metas ≡ b.metas ++ admitted b p
    unfolding visit admitted
    visit-metas b no_buffer = sym (append-nil b.metas)
    visit-metas b nothing = sym (append-nil b.metas)
    visit-metas b (pops f) = elim (Bool-cases (is_mismatch b f)) [
      | inl e ↦ rw e (sym (append-nil b.metas))
      | inr e ↦ rw e (add_frame-metas id b f)
    ]

    collect-metas :
        (poll : String → Poll X) (b : Batch X) (sids : List String)
        → (collect id bound poll b sids).metas ≡ b.metas ++ taken poll b sids
    unfolding collect taken
    collect-metas poll b [] = sym (append-nil b.metas)
    collect-metas poll b (sid ∷ sids) = elim (Bool-cases (visit id bound b (poll sid)).1) [
      | inl e ↦ rw (e, append-nil (admitted b (poll sid))) (visit-metas b (poll sid))
      | inr e ↦ rw e (
          collect-metas poll (visit id bound b (poll sid)).0 sids
          ∙ ap (λ x. x ++ taken poll (visit id bound b (poll sid)).0 sids)
              (visit-metas b (poll sid))
          ∙ append_assoc b.metas (admitted b (poll sid)) _)
    ]

  pub refresh-batch : (id : String) (r : Round X) (l : Loop X) → (refresh id r l).batch ≡ l.batch
  unfolding refresh
  refresh-batch id r l =
      elim (Bool-cases (leb l.stream_refresh_deadline r.now || is_empty l.model_streams)) [
        | inl e ↦ rw e refl
        | inr e ↦ rw e refl
      ]

  -- The descriptions in the batches, one after the other.
  unfoldable pub all_metas : List (Batch X) → List StreamMeta
  all_metas [] = []
  all_metas (b ∷ bs) = b.metas ++ all_metas bs

  all_metas-append : (xs ys : List (Batch X)) → all_metas (xs ++ ys) ≡ all_metas xs ++ all_metas ys
  unfolding all_metas
  all_metas-append [] ys = refl
  all_metas-append (x ∷ xs) ys =
      ap (λ z. x.metas ++ z) (all_metas-append xs ys)
      ∙ sym (append_assoc x.metas (all_metas xs) (all_metas ys))

  module _ (cfg : ModelConfig) where
    -- The frames that a round takes, and those of a number of rounds.
    unfoldable pub taken_in : Round X → Loop X → List StreamMeta
    taken_in r l =
        let l' = refresh cfg.id r l in taken cfg.id (max_bs cfg) r.poll l'.batch l'.model_streams

    unfoldable pub taken_all : List (Round X) → Loop X → List StreamMeta
    taken_all [] l = []
    taken_all (r ∷ rs) l = taken_in r l ++ taken_all rs (round cfg r l).1

    finish-metas :
        (r : Round X) (l : Loop X)
        → all_metas (sent (finish cfg r l).0) ++ (finish cfg r l).1.batch.metas ≡ l.batch.metas
    unfolding finish all_metas
    finish-metas r l =
        let timeout = leb l.deadline r.checked in
        elim (Bool-cases (should_flush (preferred_sizes cfg) timeout l.batch)) [
          | inl e ↦ rw e (append-nil (l.batch.metas ++ []) ∙ append-nil l.batch.metas)
          | inr e ↦ elim (Bool-cases (is_empty l.batch.metas)) [
            | inr i ↦ rw (e, i) refl
            | inl i ↦ elim (Bool-cases timeout) [
              | inl t ↦ rw (e, i, t) refl
              | inr t ↦ rw (e, i, t) refl
            ]
          ]
        ]

    round-metas :
        (r : Round X) (l : Loop X)
        → all_metas (sent (round cfg r l).0) ++ (round cfg r l).1.batch.metas
          ≡ l.batch.metas ++ taken_in r l
    unfolding round taken_in
    round-metas r l =
        let l' = refresh cfg.id r l in
        finish-metas r
          (record l' { batch = collect cfg.id (max_bs cfg) r.poll l'.batch l'.model_streams })
        ∙ collect-metas cfg.id (max_bs cfg) r.poll l'.batch l'.model_streams
        ∙ ap (λ x. x.metas ++ taken_in r l) (refresh-batch cfg.id r l)

    -- In any number of rounds, the frames in the batches that are sent, followed by those that
    -- still wait, are those that waited at first, followed by the frames that the visits took, in
    -- the order in which they took them; a visit drops only a frame of another kind than the
    -- batch.
    pub schedule_loop-metas :
        (rs : List (Round X)) (l : Loop X)
        → all_metas (schedule_loop cfg rs l).0 ++ (schedule_loop cfg rs l).1.batch.metas
          ≡ l.batch.metas ++ taken_all rs l
    unfolding schedule_loop taken_all all_metas
    schedule_loop-metas [] l = sym (append-nil l.batch.metas)
    schedule_loop-metas (r ∷ rs) l =
        let (o, l') = round cfg r l in
        let (bs, l'') = schedule_loop cfg rs l' in
        ap (λ x. x ++ l''.batch.metas) (all_metas-append (sent o) bs)
        ∙ append_assoc (all_metas (sent o)) (all_metas bs) l''.batch.metas
        ∙ ap (λ x. all_metas (sent o) ++ x) (schedule_loop-metas rs l')
        ∙ sym (append_assoc (all_metas (sent o)) l'.batch.metas (taken_all rs l'))
        ∙ ap (λ x. x ++ taken_all rs l') (round-metas r l)
        ∙ append_assoc l.batch.metas (taken_in r l) (taken_all rs l')
