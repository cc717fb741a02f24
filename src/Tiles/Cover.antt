-- ===== src/Tiles/Cover.antt =====
-- The starts of src/pipeline/stages/SahiSchedulerStage.cpp cover the axis.
use mathlib.Core.Bool.{false≢true}
use inference_server.Shared.{
  ◌≡◌, refl, ℕ, zero, suc, ◌+◌, ◌-◌, ◌≤◌, ◌<◌, min, Bool, true, false, ltb, leb, List, [], ◌∷◌,
  Option, none, some, arith, Bool-cases, inl, inr, ◌&&◌, ◌||◌,
}
use inference_server.Shared.Int.{ℤ, pos, negsuc}
use inference_server.Tiles.{safe_tile, stride, stride_of, push_start, starts_from, make_axis_starts}

-- The point lies in a tile that begins at one of the starts.
abbrev pub covers : ℕ → ℕ → List ℕ → Bool
covers tile p [] = false
covers tile p (s ∷ ss) = (leb s p && ltb p (s + tile)) || covers tile p ss

-- Whether a point is in the tile that begins at the start before the rest, if there is one.
abbrev covers_last : ℕ → ℕ → Option ℕ → Bool
covers_last tile p none = false
covers_last tile p (some s) = leb s p && ltb p (s + tile)

push_start-covers :
    (tile p : ℕ) (last : Option ℕ) (start : ℕ) (rest : List ℕ)
    → (covers_last tile p last || covers tile p (push_start last start rest))
      ≡ (covers_last tile p last || ((leb start p && ltb p (start + tile)) || covers tile p rest))
push_start-covers tile p none start rest = refl
push_start-covers tile p (some s) start rest = ground arith

-- The loop ends and covers every point from `x` on, if a step is not longer than a tile.
abbrev Covered : ℕ → ℕ → ℕ → Option ℕ → Option (List ℕ) → Type 0
Covered full tile x last none = ⊥
Covered full tile x last (some ss) =
    (p : ℕ) → x ≤ p → p < full → (covers_last tile p last || covers tile p ss) ≡ true

finish-Covered :
    (full tile x : ℕ) (last : Option ℕ)
    → tile ≤ full
    → full ≤ min x (full - tile) + tile
    → Covered full tile x last (some (push_start last (min x (full - tile)) []))
finish-Covered full tile x last h end p low high =
    ground (arith, push_start-covers tile p last (min x (full - tile)) [])

continue-Covered :
    (full tile step x : ℕ) (last : Option ℕ) (rest : Option (List ℕ))
    → tile ≤ full
    → step ≤ tile
    → min x (full - tile) + tile < full
    → Covered full tile (x + step) (some (min x (full - tile))) rest
    → Covered full tile x last
        (elim rest [ none ↦ none | some xs ↦ some (push_start last (min x (full - tile)) xs) ])
continue-Covered full tile step x last none h k more ih = ih
continue-Covered full tile step x last (some xs) h k more ih =
    λ p low high. ground (arith, push_start-covers tile p last (min x (full - tile)) xs, ih p)

starts_from-Covered :
    (fuel full tile step x : ℕ) (last : Option ℕ)
    → tile ≤ full
    → 1 ≤ step
    → step ≤ tile
    → full ≤ fuel + x
    → Covered full tile x last (starts_from fuel full tile step x last)
unfolding starts_from
starts_from-Covered zero full tile step x last h s k enough = elim (Bool-cases (ltb x full)) [
  | inl e ↦ ground arith
  | inr e ↦ rw e (λ p low high. ground arith)
]
starts_from-Covered (suc fuel) full tile step x last h s k enough = elim (Bool-cases (ltb x full)) [
  | inr e ↦ rw e (λ p low high. ground arith)
  | inl e ↦ elim (Bool-cases (leb full (min x (full - tile) + tile))) [
    | inl end ↦ rw (e, end) (finish-Covered full tile x last h (ground arith))
    | inr more ↦
        rw (e, more)
          (continue-Covered full tile step x last _ h k (ground arith)
            (starts_from-Covered fuel full tile step (x + step) _ h s k (omega (arith, s, enough))))
  ]
]

-- The starts, if there are any, cover the axis: the loop ends, and every point lies in a tile.
abbrev pub CoversAxis : ℕ → ℕ → Option (List ℕ) → Type 0
CoversAxis full tile none = ⊥
CoversAxis full tile (some ss) = (p : ℕ) → p < full → covers tile p ss ≡ true

Covered-CoversAxis :
    (full tile : ℕ) (o : Option (List ℕ)) → Covered full tile 0 none o → CoversAxis full tile o
Covered-CoversAxis full tile none h = h
Covered-CoversAxis full tile (some ss) h = λ p high. h p (omega arith) high

-- The overlap is not negative.
abbrev pub is_nonnegative : ℤ → Bool
is_nonnegative (pos n) = true
is_nonnegative (negsuc n) = false

stride_of-bounds :
    (overlap : ℤ) (tile : ℕ)
    → is_nonnegative overlap ≡ true
    → 1 ≤ tile
    → (1 ≤ stride_of overlap tile) × (stride_of overlap tile ≤ tile)
stride_of-bounds (pos n) tile h t = (omega arith, omega (arith, t))
stride_of-bounds (negsuc n) tile h t = absurd (false≢true h)

-- On an axis that is not empty, whatever the tile length, makeAxisStarts ends, and every point of
-- the axis lies in the tile of one of the starts, if the overlap in pixels is not negative.
pub make_axis_starts-CoversAxis :
    (overlap : ℕ → ℤ) (full tile : ℕ)
    → 0 < full
    → is_nonnegative (overlap (safe_tile full tile)) ≡ true
    → CoversAxis full (safe_tile full tile) (make_axis_starts overlap full tile)
unfolding make_axis_starts
make_axis_starts-CoversAxis overlap full tile h nonnegative =
    let t = safe_tile full tile in
    let (least, most) = stride_of-bounds (overlap t) t nonnegative (omega arith) in
    Covered-CoversAxis full t _ (
      starts_from-Covered full full t (stride overlap t) 0 none (omega (arith, h)) least most
        (omega arith))
