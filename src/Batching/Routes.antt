-- ===== src/Batching/Routes.antt =====
-- Which worker src/pipeline/InferWorkerGroup.cpp chooses for a batch.
use native.Mathlib.Nat.{div-add-mod', mul-add-mod_self_right, add-mod_right, mod-lt, mod-eq_of_lt}
use mathlib.Core.Bool.{false≢true}
use inference_server.Shared.{
  ◌≡◌, refl, sym, ap, ◌∙◌, ℕ, zero, suc, ◌+◌, ◌-◌, ◌*◌, ◌/◌, ◌%◌, ◌<◌, ◌≤◌, Bool, true, false, List,
  [], ◌∷◌, Option, none, some, or_else, if◌then◌else◌, length, any, arith, inl, inr, Bool-cases,
  Option-cases, is_some, ltb, none-ne-some, some_inj,
}
use inference_server.Shared.Int.{ℤ}
use inference_server.Batching.{Batch, AscendBuffer}
use inference_server.Batching.Workers.{
  Worker, is_running, is_recovering, passes, get_elem?, runs_on, scan, first, ascend_front,
  choose_any, choose_cuda, choose_ascend, choose,
}

-- The loop visits every index.
visits : (start n j : ℕ) → j < n → (i : ℕ) × (i < n) × ((start + i) % n ≡ j)
visits start n j h =
    let below : start % n < n = mod-lt start (omega (arith, h)) in
    let split : start / n * n + start % n ≡ start = div-add-mod' start n in
    elim (Bool-cases (ltb j (start % n))) [
      | inl e ↦ (
        j + n - start % n,
        ground (arith, below),
        ap (λ x. x % n)
              (wrap (start / n * n) (start % n) split (ground arith) (ground (arith, below)))
            ∙ mul-add-mod_self_right (start / n) n (j + n)
            ∙ add-mod_right j n
            ∙ mod-eq_of_lt h,
      )
      | inr e ↦ (
        j - start % n,
        omega (arith, h),
        ap (λ x. x % n) (direct (start / n * n) (start % n) split (ground arith))
            ∙ mul-add-mod_self_right (start / n) n j
            ∙ mod-eq_of_lt h,
      )
    ]
  where
    wrap : (q s : ℕ) → q + s ≡ start → j < s → s < n → start + (j + n - s) ≡ q + (j + n)
    wrap q s e a b = omega (arith, e, a, b)

    direct : (q s : ℕ) → q + s ≡ start → s ≤ j → start + (j - s) ≡ q + j
    direct q s e a = omega (arith, e, a)

module _ {X : Type 0} where
  any-get_elem? :
      (p : Worker X → Bool) (ws : List (Worker X))
      → any p ws ≡ true
      → (j : ℕ) × (j < length ws) × (passes p (get_elem? ws j) ≡ true)
  any-get_elem? p [] h = absurd (false≢true h)
  any-get_elem? p (w ∷ ws) h = elim (Bool-cases (p w)) [
    | inl e ↦ (0, omega arith, e)
    | inr e ↦
        let (j, lt, there) = any-get_elem? p ws (ground arith) in (suc j, omega (arith, lt), there)
  ]

  get_elem?-any :
      (p : Worker X → Bool) (ws : List (Worker X)) (j : ℕ)
      → passes p (get_elem? ws j) ≡ true
      → any p ws ≡ true
  get_elem?-any p [] j h = absurd (false≢true h)
  get_elem?-any p (w ∷ ws) zero h = rw h refl
  get_elem?-any p (w ∷ ws) (suc j) h = ground (arith, get_elem?-any p ws j h)

  module _ (ws : List (Worker X)) (start : ℕ) (p : Worker X → Bool) where
    scan-some : (k i j : ℕ) → scan ws start p k i ≡ some j → passes p (get_elem? ws j) ≡ true
    unfolding scan
    scan-some zero i j h = absurd (none-ne-some h)
    scan-some (suc k) i j h =
        elim (Bool-cases (passes p (get_elem? ws ((start + i) % length ws)))) [
          | inl e ↦ ap (λ x. passes p (get_elem? ws x)) (sym (some_inj (rw e at h))) ∙ e
          | inr e ↦ scan-some k (suc i) j (rw e at h)
        ]

    scan-none :
        (k i d : ℕ)
        → scan ws start p k i ≡ none
        → d < k
        → passes p (get_elem? ws ((start + (i + d)) % length ws)) ≡ false
    unfolding scan
    scan-none zero i d h lt = absurd (omega (arith, lt))
    scan-none (suc k) i zero h lt =
        elim (Bool-cases (passes p (get_elem? ws ((start + i) % length ws)))) [
          | inl e ↦ absurd (none-ne-some (sym (rw e at h)))
          | inr e ↦ ap (λ x. passes p (get_elem? ws ((start + x) % length ws))) (omega arith) ∙ e
        ]
    scan-none (suc k) i (suc d) h lt =
        elim (Bool-cases (passes p (get_elem? ws ((start + i) % length ws)))) [
          | inl e ↦ absurd (none-ne-some (sym (rw e at h)))
          | inr e ↦
              ap (λ x. passes p (get_elem? ws ((start + x) % length ws))) (omega arith)
              ∙ scan-none k (suc i) d (rw e at h) (omega (arith, lt))
        ]

    -- The loop finds a worker that passes the test where there is one, and none otherwise.
    first-any : is_some (first ws start p) ≡ any p ws
    first-any = elim (Option-cases (first ws start p)) [
      | inl e ↦ rw e (sym (absent e))
      | inr (j, e) ↦ rw e (sym (get_elem?-any p ws j (scan-some (length ws) 0 j e)))
    ]
      where
        absent : first ws start p ≡ none → any p ws ≡ false
        absent e = elim (Bool-cases (any p ws)) [
          | inr a ↦ a
          | inl a ↦
              let (j, lt, there) = any-get_elem? p ws a in
              let (i, below, at) = visits start (length ws) j lt in
              absurd (
                false≢true (
                  sym (scan-none (length ws) 0 i e below)
                  ∙ ap (λ x. passes p (get_elem? ws ((start + x) % length ws))) (omega arith)
                  ∙ ap (λ x. passes p (get_elem? ws x)) at
                  ∙ there))
        ]

  -- The worker that a batch should get: for an Ascend batch a running one on the device of its first frame;
  -- for a GPU batch a running one on the given device, if there is one; else a running one, if there is
  -- one; else one that recovers.
  abbrev any_worker : List (Worker X) → Worker X → Bool
  any_worker ws = if any is_running ws then is_running else is_recovering

  abbrev near : List (Worker X) → Bool → Option ℤ → Worker X → Bool
  near ws is_gpu none = λ w. false
  near ws is_gpu (some target) = if is_gpu then runs_on target else λ w. false

  unfoldable pub suits : List (Worker X) → Batch X → Option ℤ → Worker X → Bool
  suits ws b restrict = elim (ascend_front b) [
    | none ↦ if any (near ws b.is_gpu restrict) ws then near ws b.is_gpu restrict else any_worker ws
    | some buf ↦ runs_on buf.device_id
  ]

  -- There is an answer where a worker passes, and the answer passes.
  abbrev Answers : List (Worker X) → Option ℕ → (Worker X → Bool) → Type 0
  Answers ws o p =
      (is_some o ≡ any p ws) × ((j : ℕ) → o ≡ some j → passes p (get_elem? ws j) ≡ true)

  module _ (ws : List (Worker X)) where
    first-Answers : (start : ℕ) (p : Worker X → Bool) → Answers ws (first ws start p) p
    first-Answers start p = (first-any ws start p, λ j h. scan-some ws start p (length ws) 0 j h)

    never : (xs : List (Worker X)) → any (λ w. false) xs ≡ false
    never [] = refl
    never (x ∷ xs) = never xs

    none-Answers : Answers ws none (λ w. false)
    none-Answers = (sym (never ws), λ j h. absurd (none-ne-some h))

    or_else-Answers :
        (o o' : Option ℕ) (p q : Worker X → Bool)
        → Answers ws o p
        → Answers ws o' q
        → Answers ws (or_else o o') (if any p ws then p else q)
    or_else-Answers none o' p q h h' = rw (sym h.0) h'
    or_else-Answers (some j) o' p q h h' = rw (sym h.0) (h.0, h.1)

    near-Answers :
        (start : ℕ) (is_gpu : Bool) (restrict : Option ℤ)
        → Answers ws (choose_cuda ws start is_gpu restrict) (near ws is_gpu restrict)
    near-Answers start is_gpu none = none-Answers
    near-Answers start true (some target) = first-Answers start (runs_on target)
    near-Answers start false (some target) = none-Answers

    -- A group gives a batch to a worker exactly if one suits it, and then to one that suits: for
    -- an Ascend batch a running one on the device of its first frame; for a GPU batch a running
    -- one on the given device, if there is one; else a running one, if there is one; else one that
    -- recovers.
    pub choose-suits :
        (start : ℕ) (b : Batch X) (restrict : Option ℤ)
        → (is_some (choose ws start b restrict) ≡ any (suits ws b restrict) ws)
          × ((j : ℕ)
              → choose ws start b restrict ≡ some j
              → passes (suits ws b restrict) (get_elem? ws j) ≡ true)
    unfolding choose suits choose_any
    choose-suits start b restrict = at (ascend_front b)
      where
        at :
            (o : Option (AscendBuffer X))
            → Answers ws
                (elim o [
                  | none ↦ or_else (choose_cuda ws start b.is_gpu restrict) (choose_any ws start)
                  | some buf ↦ choose_ascend ws start buf
                ])
                (elim o [
                  | none ↦
                      if any (near ws b.is_gpu restrict) ws
                      then near ws b.is_gpu restrict
                      else any_worker ws
                  | some buf ↦ runs_on buf.device_id
                ])
        at none = or_else-Answers _ _ _ _ (near-Answers start b.is_gpu restrict) (
            or_else-Answers _ _ _ _ (first-Answers start is_running)
              (first-Answers start is_recovering))
        at (some buf) = first-Answers start (runs_on buf.device_id)
