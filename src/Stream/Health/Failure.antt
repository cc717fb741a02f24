-- ===== src/Stream/Health/Failure.antt =====
-- When a stream of src/stream/StreamHealthRegistry.cpp is given up.
use mathlib.Core.Path.{subst}
use inference_server.Shared.{
  ◌≡◌, ◌∙◌, true, false, ℕ, suc, ◌+◌, ◌^◌, ◌<◌, leb, String, List, [], ◌∷◌, some, if◌then◌else◌,
  lookup, insert, lookup-insert, arith, Bool-cases, Option-cases, inl, inr, str_eq, some_inj,
  none-ne-some,
}
use inference_server.Shared.Int.{ℤ, pos, negsuc}
use inference_server.Stream.Health.{
  Entry, to_word, at_least_zero, max_attempts, has_failed, opened, dropped, reconnect_failed,
  reconnect_succeeded, frame_decoded, removed, Event, on_stream_added, on_stream_opened,
  on_stream_dropped, on_reconnect_failed, on_reconnect_succeeded, on_frame_decoded,
  on_stream_removed, change, handle, handle_all, added, default_health,
}

to_word_bound : (n : ℤ) → to_word n < 2 ^ 32
to_word_bound (pos n) = omega arith
to_word_bound (negsuc n) = omega arith

module _ {T : Type 0} where
  -- Attempts fail again and again, at the given times.
  unfoldable pub fail_all : List T → Entry T → Entry T
  fail_all [] e = e
  fail_all (now ∷ times) e = fail_all times (reconnect_failed now e)

  abbrev pub count : List T → ℕ
  count [] = 0
  count (t ∷ ts) = suc (count ts)

  -- Below its limit unless it is given up.
  abbrev pub IsBelow : Entry T → Type 0
  IsBelow e =
      0 < max_attempts e → has_failed e ≡ false → e.health.consecutive_failures < max_attempts e

  reconnect_failed-IsBelow : (now : T) (e : Entry T) → IsBelow e → IsBelow (reconnect_failed now e)
  unfolding reconnect_failed
  reconnect_failed-IsBelow now e h =
      ground (arith, to_word_bound (at_least_zero e.max_reconnect_attempts))

  opened-IsBelow : (now : T) (e : Entry T) → IsBelow e → IsBelow (opened now e)
  unfolding opened
  opened-IsBelow now e h = ground arith

  dropped-IsBelow : (now : T) (e : Entry T) → IsBelow e → IsBelow (dropped now e)
  unfolding dropped
  dropped-IsBelow now e h = ground arith

  reconnect_succeeded-IsBelow :
      (now : T) (e : Entry T) → IsBelow e → IsBelow (reconnect_succeeded now e)
  unfolding reconnect_succeeded
  reconnect_succeeded-IsBelow now e h = ground arith

  removed-IsBelow : (now : T) (e : Entry T) → IsBelow e → IsBelow (removed now e)
  unfolding removed
  removed-IsBelow now e h = ground arith

  frame_decoded-IsBelow : (ts : T) (e : Entry T) → IsBelow e → IsBelow (frame_decoded ts e)
  unfolding frame_decoded
  frame_decoded-IsBelow ts e h = h

  -- Each entry of the registry.
  abbrev pub AllBelow : List (String × Entry T) → Type 0
  AllBelow m = (id : String) (e : Entry T) → lookup m id ≡ some e → IsBelow e

  insert-AllBelow :
      (m : List (String × Entry T)) (id : String) (e : Entry T)
      → AllBelow m
      → IsBelow e
      → AllBelow (insert m id e)
  insert-AllBelow m id e all new j f h = by_key (rw (lookup-insert m id e j) at h)
    where
      by_key : (if str_eq id j then some e else lookup m j) ≡ some f → IsBelow f
      by_key h' = elim (Bool-cases (str_eq id j)) [
        | inl k ↦ subst IsBelow (some_inj (rw k at h')) new
        | inr k ↦ all j f (rw k at h')
      ]

  change-AllBelow :
      (f : Entry T → Entry T) (m : List (String × Entry T)) (id : String)
      → ((e : Entry T) → IsBelow e → IsBelow (f e))
      → AllBelow m
      → AllBelow (change f m id)
  unfolding change
  change-AllBelow f m id keeps all = elim (Option-cases (lookup m id)) [
    | inl e ↦ rw e all
    | inr (x, e) ↦ rw e (insert-AllBelow m id (f x) all (keeps x (all id x e)))
  ]

  module _ (zero_time : T) where
    added-IsBelow :
        (now : T) (threshold attempts : ℤ) → IsBelow (added zero_time now threshold attempts)
    unfolding added default_health
    added-IsBelow now threshold attempts h _ = h

    pub handle-AllBelow :
        (m : List (String × Entry T)) (e : Event T) → AllBelow m → AllBelow (handle zero_time m e)
    unfolding handle
    handle-AllBelow m (on_stream_added id now threshold attempts) all =
        insert-AllBelow m id _ all (added-IsBelow now threshold attempts)
    handle-AllBelow m (on_stream_opened id now) all =
        change-AllBelow _ m id (opened-IsBelow now) all
    handle-AllBelow m (on_stream_dropped id now) all =
        change-AllBelow _ m id (dropped-IsBelow now) all
    handle-AllBelow m (on_reconnect_failed id now) all =
        change-AllBelow _ m id (reconnect_failed-IsBelow now) all
    handle-AllBelow m (on_reconnect_succeeded id now) all =
        change-AllBelow _ m id (reconnect_succeeded-IsBelow now) all
    handle-AllBelow m (on_frame_decoded id ts) all =
        change-AllBelow _ m id (frame_decoded-IsBelow ts) all
    handle-AllBelow m (on_stream_removed id now) all =
        change-AllBelow _ m id (removed-IsBelow now) all

    handle_all-AllBelow :
        (m : List (String × Entry T)) (es : List (Event T))
        → AllBelow m
        → AllBelow (handle_all zero_time m es)
    unfolding handle_all
    handle_all-AllBelow m [] all = all
    handle_all-AllBelow m (e ∷ es) all =
        handle_all-AllBelow (handle zero_time m e) es (handle-AllBelow m e all)

    -- In the registry that any calls leave, a stream whose limit of attempts is positive and that
    -- is not FAILED has fewer consecutive failures than its limit.
    pub limit-holds :
        (es : List (Event T)) (id : String) (e : Entry T)
        → lookup (handle_all zero_time [] es) id ≡ some e
        → IsBelow e
    unfolding lookup
    limit-holds es = handle_all-AllBelow [] es (λ id e h. absurd (none-ne-some h))

  -- A failed attempt on a stream that has fewer failures than its limit.
  reconnect_failed_lem :
      (now : T) (e : Entry T)
      → has_failed e ≡ false
      → e.health.consecutive_failures < max_attempts e
      → (has_failed (reconnect_failed now e)
          ≡ leb (max_attempts e) (e.health.consecutive_failures + 1))
        × ((reconnect_failed now e).health.consecutive_failures ≡ e.health.consecutive_failures + 1)
        × (max_attempts (reconnect_failed now e) ≡ max_attempts e)
  unfolding reconnect_failed
  reconnect_failed_lem now e ok below =
      (ground (arith, bound), ground (arith, bound), ground (arith, bound))
    where
      bound : max_attempts e < 2 ^ 32
      bound = to_word_bound (at_least_zero e.max_reconnect_attempts)

  fail_all-failed :
      (times : List T) (e : Entry T) → has_failed e ≡ true → has_failed (fail_all times e) ≡ true
  unfolding fail_all reconnect_failed
  fail_all-failed [] e h = h
  fail_all-failed (now ∷ times) e h = simp h (fail_all-failed times e h)

  -- Failures in a row, on a stream that is not FAILED and whose failures are below its positive
  -- limit, make it FAILED exactly if their number, with those counted before, reaches the limit.
  pub give_up_lem :
      (times : List T) (e : Entry T)
      → has_failed e ≡ false
      → 0 < max_attempts e
      → e.health.consecutive_failures < max_attempts e
      → has_failed (fail_all times e)
        ≡ leb (max_attempts e) (e.health.consecutive_failures + count times)
  unfolding fail_all
  give_up_lem [] e ok limited below = ground arith
  give_up_lem (now ∷ times) e ok limited below =
      elim (Bool-cases (leb (max_attempts e) (e.health.consecutive_failures + 1))) [
        | inl k ↦ fail_all-failed times (reconnect_failed now e) (step.0 ∙ k) ∙ ground arith
        | inr k ↦
            give_up_lem times (reconnect_failed now e) (step.0 ∙ k) (ground (arith, step))
              (ground (arith, step))
            ∙ ground (arith, step)
      ]
    where
      step :
          (has_failed (reconnect_failed now e)
            ≡ leb (max_attempts e) (e.health.consecutive_failures + 1))
          × ((reconnect_failed now e).health.consecutive_failures
              ≡ e.health.consecutive_failures + 1)
          × (max_attempts (reconnect_failed now e) ≡ max_attempts e)
      step = reconnect_failed_lem now e ok below
