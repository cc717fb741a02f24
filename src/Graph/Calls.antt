-- ===== src/Graph/Calls.antt =====
-- The order of the calls that `GraphExecutor::start` and `stop` make (src/pipeline/GraphExecutor.cpp),
-- read by an independent account of the workers that are alive.
use mathlib.Core.Path.{fun_ext}
use mathlib.Core.List.{append_assoc, append-nil}
use text.Mathlib.TextPositions.{eq_refl}
use inference_server.Shared.{
  ◌≡◌, refl, sym, ap, ◌∙◌, Bool, Option, none, some, List, [], ◌∷◌, ◌++◌, map, String, str_eq,
  if◌then◌else◌, inl, inr, Bool-cases,
}
use inference_server.Graph.{
  GraphExecutor, start, stop, Stage, Call, reopens_queue, stops_queue, spawns_worker, drains_stage,
  joins_worker, stops_stage, start_stages,
}

-- An independent reading of the calls: which workers are alive. A call is refused if it joins a
-- worker that is not alive, or releases a stage while any worker is alive.
abbrev take_worker : List String → String → Option (List String)
take_worker [] id = none
take_worker (w ∷ ws) id =
    if str_eq w id
    then some ws
    else elim (take_worker ws id) [ none ↦ none | some rest ↦ some (w ∷ rest) ]

abbrev when_idle : List String → Option (List String)
when_idle [] = some []
when_idle (w ∷ ws) = none

abbrev after_call : List String → Call → Option (List String)
after_call alive (spawns_worker id) = some (alive ++ id ∷ [])
after_call alive (joins_worker id) = take_worker alive id
after_call alive (stops_stage id) = when_idle alive
after_call alive _ = some alive

abbrev replay_next :
    Option (List String) → (List String → Option (List String)) → Option (List String)
replay_next none f = none
replay_next (some alive) f = f alive

-- The workers alive after the calls; `none` if one of them is refused.
pub replay : List String → List Call → Option (List String)
replay alive [] = some alive
replay alive (c ∷ cs) = replay_next (after_call alive c) (λ ws. replay ws cs)

replay_next_assoc :
    (o : Option (List String)) (f g : List String → Option (List String))
    → replay_next (replay_next o f) g ≡ replay_next o (λ ws. replay_next (f ws) g)
replay_next_assoc none f g = refl
replay_next_assoc (some ws) f g = refl

pub replay-nil : (alive : List String) → replay alive [] ≡ some alive
unfolding replay
replay-nil alive = refl

replay-append :
    (alive : List String) (xs ys : List Call)
    → replay alive (xs ++ ys) ≡ replay_next (replay alive xs) (λ ws. replay ws ys)
unfolding replay
replay-append alive [] ys = refl
replay-append alive (c ∷ cs) ys =
    ap (replay_next (after_call alive c)) (fun_ext (λ ws. replay-append ws cs ys))
    ∙ sym (replay_next_assoc (after_call alive c) (λ ws. replay ws cs) (λ ws. replay ws ys))

-- Two parts of a list of calls, one after the other.
pub replay_two :
    (alive mid end : List String) (xs ys : List Call)
    → replay alive xs ≡ some mid
    → replay mid ys ≡ some end
    → replay alive (xs ++ ys) ≡ some end
replay_two alive mid end xs ys h k =
    replay-append alive xs ys ∙ ap (λ o. replay_next o (λ ws. replay ws ys)) h ∙ k

module _ {V : Type 0} where
  replay-reopens :
      (alive : List String) (m : List (String × V))
      → replay alive (map (λ (k, q). reopens_queue k) m) ≡ some alive
  unfolding replay
  replay-reopens alive [] = refl
  replay-reopens alive ((k, q) ∷ m) = replay-reopens alive m

  replay-stops :
      (alive : List String) (m : List (String × V))
      → replay alive (map (λ (k, q). stops_queue k) m) ≡ some alive
  unfolding replay
  replay-stops alive [] = refl
  replay-stops alive ((k, q) ∷ m) = replay-stops alive m

  replay-drains :
      (alive : List String) (m : List (String × V))
      → replay alive (map (λ (k, q). drains_stage k) m) ≡ some alive
  unfolding replay
  replay-drains alive [] = refl
  replay-drains alive ((k, q) ∷ m) = replay-drains alive m

  replay-releases : (m : List (String × V)) → replay [] (map (λ (k, q). stops_stage k) m) ≡ some []
  unfolding replay
  replay-releases [] = refl
  replay-releases ((k, q) ∷ m) = replay-releases m

replay-joins : (ws : List String) → replay ws (map joins_worker ws) ≡ some []
unfolding replay
replay-joins [] = refl
replay-joins (w ∷ ws) = rw (eq_refl w) (replay-joins ws)

replay-start_stages :
    (throws : String → Bool) (alive : List String) (m : List (String × Stage))
    → let r = start_stages throws m in replay alive r.1 ≡ some (alive ++ r.0)
unfolding start_stages replay
replay-start_stages throws alive [] = sym (ap some (append-nil alive))
replay-start_stages throws alive ((id, stage) ∷ m) = elim (Bool-cases (throws id)) [
  | inl e ↦ rw e (sym (ap some (append-nil alive)))
  | inr e ↦ rw e (
      replay-start_stages throws (alive ++ id ∷ []) m
      ∙ ap some (append_assoc alive (id ∷ []) (start_stages throws m).0))
]

module _ {P : Type 0} where
  pub replay-start :
      (throws : String → Bool) (g : GraphExecutor P)
      → let r = start throws g in replay g.worker_threads r.1 ≡ some r.0.worker_threads
  unfolding start
  replay-start throws g = elim (Bool-cases g.running) [
    | inl e ↦ rw e (replay-nil g.worker_threads)
    | inr e ↦ rw e (
        replay_two g.worker_threads g.worker_threads _ (map (λ (k, q). reopens_queue k) g.edges)
          (start_stages throws g.stages).1 (replay-reopens g.worker_threads g.edges)
          (replay-start_stages throws g.worker_threads g.stages))
  ]

  pub replay-stop :
      (g : GraphExecutor P)
      → let r = stop g in replay g.worker_threads r.1 ≡ some r.0.worker_threads
  unfolding stop
  replay-stop g = elim (Bool-cases g.running) [
    | inr e ↦ rw e (replay-nil g.worker_threads)
    | inl e ↦
        let ws = g.worker_threads in
        rw e (
          replay_two ws ws [] (map (λ (k, q). stops_queue k) g.edges) _ (replay-stops ws g.edges) (
            replay_two ws ws [] (map (λ (k, q). drains_stage k) g.stages) _
              (replay-drains ws g.stages)
              (replay_two ws [] [] (map joins_worker ws) _ (replay-joins ws)
                (replay-releases g.stages))))
  ]
