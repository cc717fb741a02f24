-- ===== src/TaskManager/Template.antt =====
-- The loop of `interpolateOutputUrlPlaceholders` (src/pipeline/TaskManager.cpp) ends.
use Prim.Native.Char.{code}
use inference_server.Shared.{
  ℕ, zero, suc, ◌<◌, ◌≡◌, refl, ap, Option, none, some, String, ◌==◌, arith, Bool-cases, inl, inr,
  some_inj, none-ne-some,
}
use inference_server.Config.{TaskConfig}
use inference_server.TaskManager.Url.{
  Interpolated, text, unterminated, unsupported, out_of_fuel, break_at, size, token_value,
  after_brace, after_text, interpolate, interpolate_output_url, prepend, put_value, open_brace,
  close_brace,
}

-- The loop came to an end: with a text, or with an exception.
abbrev pub HasEnded : Interpolated → Type 0
HasEnded out_of_fuel = ⊥
HasEnded (text s) = Unit
HasEnded unterminated = Unit
HasEnded unsupported = Unit

break_at-size : (c : ℕ) (s after : String) → (break_at c s).1 ≡ some after → size after < size s
unfolding break_at size
break_at-size c String.[] after h = absurd (none-ne-some h)
break_at-size c (String.◌∷◌ x s) after h = elim (Bool-cases (code x == c)) [
  | inl e ↦ ground (arith, ap size (some_inj (rw e at h)))
  | inr e ↦ ground (arith, break_at-size c s after (rw e at h))
]

prepend-HasEnded : (before : String) (r : Interpolated) → HasEnded r → HasEnded (prepend before r)
prepend-HasEnded before out_of_fuel h = h
prepend-HasEnded before (text s) h = tt
prepend-HasEnded before unterminated h = tt
prepend-HasEnded before unsupported h = tt

module _ (task : TaskConfig) (rest : String → Interpolated) where
  put_value-HasEnded :
      (after : String) (o : Option String)
      → HasEnded (rest after)
      → HasEnded (put_value rest after o)
  put_value-HasEnded after none h = tt
  put_value-HasEnded after (some value) h = prepend-HasEnded value (rest after) h

  after_brace-HasEnded :
      (token : String) (o : Option String)
      → ((after : String) → o ≡ some after → HasEnded (rest after))
      → HasEnded (after_brace task rest (token, o))
  unfolding after_brace
  after_brace-HasEnded token none h = tt
  after_brace-HasEnded token (some after) h =
      put_value-HasEnded after (token_value task token) (h after refl)

  -- `bound` is the size of the whole text.
  after_text-HasEnded :
      (bound : ℕ) (before : String) (o : Option String)
      → ((after : String) → o ≡ some after → size after < bound)
      → ((after : String) → size after < bound → HasEnded (rest after))
      → HasEnded (after_text task rest (before, o))
  unfolding after_text
  after_text-HasEnded bound before none small ends = tt
  after_text-HasEnded bound before (some after) small ends =
      prepend-HasEnded before (after_brace task rest (break_at close_brace after)) (
        after_brace-HasEnded _ _ (λ later (h : (break_at close_brace after).1 ≡ some later).
          ends later (omega (arith, break_at-size close_brace after later h, small after refl))))

interpolate-HasEnded :
    (fuel : ℕ) (task : TaskConfig) (raw : String)
    → size raw < fuel
    → HasEnded (interpolate fuel task raw)
unfolding interpolate
interpolate-HasEnded zero task raw h = ground arith
interpolate-HasEnded (suc fuel) task raw h =
    after_text-HasEnded task (interpolate fuel task) (size raw) _ _ (break_at-size open_brace raw)
      (λ after small. interpolate-HasEnded fuel task after (omega (arith, small, h)))

-- Whatever the text, the fuel given to the loop over an output URL is enough: it ends with a text
-- or with an exception.
pub interpolate_output_url-HasEnded :
    (task : TaskConfig) (raw : String) → HasEnded (interpolate_output_url task raw)
unfolding interpolate_output_url
interpolate_output_url-HasEnded task raw =
    interpolate-HasEnded (suc (size raw)) task raw (omega arith)
