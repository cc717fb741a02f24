-- ===== src/Stream/Devices/Balance.antt =====
-- The streams are spread evenly over the devices (src/stream/GpuDeviceAllocator.cpp).
use mathlib.Core.Path.{subst}
use inference_server.Shared.{
  ◌≡◌, refl, sym, ap, ◌∙◌, Bool, true, false, ◌||◌, ℕ, ◌+◌, ◌≤◌, ◌==◌, List, [], ◌∷◌, Option, none,
  some, arith, Bool-cases, Option-cases, inl, inr, All, All-mono, All_zip, some_inj, none-ne-some,
}
use inference_server.Shared.Int.{ℤ, int_eq, int_eq_refl, int_eq_sound}
use inference_server.Stream.Devices.{least, take_slot, take_least, acquire, release}

-- Each count is one of two neighbouring numbers.
abbrev IsWithin : ℕ → List (ℤ × ℕ) → Type 0
IsWithin k ds = All (λ d. (k ≤ d.1) × (d.1 ≤ k + 1)) ds

abbrev pub IsBalanced : List (ℤ × ℕ) → Type 0
IsBalanced ds = (k : ℕ) × IsWithin k ds

true-ne-false : true ≡ false → ⊥
true-ne-false h = cc

abbrev has_device : List (ℤ × ℕ) → ℤ → Bool
has_device [] id = false
has_device ((i, c) ∷ ds) id = int_eq i id || has_device ds id

-- No identifier occurs twice.
abbrev pub AreDistinct : List (ℤ × ℕ) → Type 0
AreDistinct [] = Unit
AreDistinct ((i, c) ∷ ds) = (has_device ds i ≡ false) × AreDistinct ds

least-nil : (ds : List (ℤ × ℕ)) → least ds ≡ none → ds ≡ []
unfolding least
least-nil [] h = refl
least-nil ((id, c) ∷ ds) h = elim (Option-cases (least ds)) [
  | inl e ↦ absurd (none-ne-some (sym (rw e at h)))
  | inr (d, e) ↦ absurd (none-ne-some (sym (rw e at h)))
]

-- The smallest count is that of a device.
least-within :
    (k : ℕ) (ds : List (ℤ × ℕ)) (m : ℕ) → IsWithin k ds → least ds ≡ some m → (k ≤ m) × (m ≤ k + 1)
unfolding least
least-within k [] m h e = absurd (none-ne-some e)
least-within k ((id, c) ∷ ds) m h e = elim (Option-cases (least ds)) [
  | inl n ↦ ground (arith, h.0)
  | inr (d, n) ↦ ground (arith, h.0, least-within k ds d h.1 n)
]

least-le : (ds : List (ℤ × ℕ)) (m : ℕ) → least ds ≡ some m → All (λ d. m ≤ d.1) ds
unfolding least
least-le [] m h = tt
least-le ((id, c) ∷ ds) m h = elim (Option-cases (least ds)) [
  | inl e ↦ (ground arith, subst (All (λ d. m ≤ d.1)) (sym (least-nil ds e)) tt)
  | inr (d, e) ↦ (ground arith, All-mono _ _ ds (λ x k. ground arith) (least-le ds d e))
]

take_slot-All :
    (P Q : ℤ × ℕ → Type 0) (m : ℕ) (ds : List (ℤ × ℕ))
    → ((d : ℤ × ℕ) → P d → Q d)
    → ((d : ℤ × ℕ) → P d → d.1 ≡ m → Q (d.0, d.1 + 1))
    → All P ds
    → All Q (take_slot m ds).1
unfolding take_slot
take_slot-All P Q m [] f g h = tt
take_slot-All P Q m ((id, c) ∷ ds) f g h = elim (Bool-cases (c == m)) [
  | inl e ↦ rw e (g (id, c) h.0 (ground arith), All-mono P Q ds f h.1)
  | inr e ↦ rw e (f (id, c) h.0, take_slot-All P Q m ds f g h.1)
]

take_least-IsBalanced :
    (ds : List (ℤ × ℕ)) (o : Option ℕ)
    → least ds ≡ o
    → IsBalanced ds
    → IsBalanced (take_least ds o).1
take_least-IsBalanced ds none e h = h
take_least-IsBalanced ds (some m) e (k, h) = (
  m,
  take_slot-All (λ d. (m ≤ d.1) × (d.1 ≤ m + 1)) (λ d. (m ≤ d.1) × (d.1 ≤ m + 1)) m ds (λ d p. p)
      (λ d p q. (omega (arith, q), omega (arith, q)))
      (All_zip _ _ _ ds (λ d p q. (p, omega (arith, q, least-within k ds m h e))) (least-le ds m e)
        h),
)

-- Where the counts of active streams differ by at most one, they do so after another stream takes
-- a device.
pub acquire-IsBalanced : (ds : List (ℤ × ℕ)) → IsBalanced ds → IsBalanced (acquire ds).1
unfolding acquire
acquire-IsBalanced ds h = take_least-IsBalanced ds _ refl h

release-first : (i : ℤ) (c : ℕ) (ds : List (ℤ × ℕ)) → release ((i, c + 1) ∷ ds) i ≡ (i, c) ∷ ds
unfolding release
release-first i c ds = rw (int_eq_refl i) (ground arith)

release-rest :
    (i : ℤ) (c : ℕ) (ds : List (ℤ × ℕ)) (id : ℤ)
    → int_eq i id ≡ false
    → release ((i, c) ∷ ds) id ≡ (i, c) ∷ release ds id
unfolding release
release-rest i c ds id other = rw other refl

-- A device that is not there has another identifier than one that is.
int_eq-apart :
    (ds : List (ℤ × ℕ)) (i id : ℤ)
    → has_device ds i ≡ false
    → has_device ds id ≡ true
    → int_eq i id ≡ false
int_eq-apart ds i id h k = elim (Bool-cases (int_eq i id)) [
  | inl e ↦ absurd (true-ne-false (sym k ∙ (sym (ap (has_device ds) (int_eq_sound i id e)) ∙ h)))
  | inr e ↦ e
]

-- The device that `take_slot` returns, released at once, has its old count.
take_slot-release :
    (m : ℕ) (ds : List (ℤ × ℕ)) (id : ℤ)
    → AreDistinct ds
    → (take_slot m ds).0 ≡ some id
    → (has_device ds id ≡ true) × (release (take_slot m ds).1 id ≡ ds)
unfolding take_slot
take_slot-release m [] id distinct h = absurd (none-ne-some h)
take_slot-release m ((i, c) ∷ ds) id distinct h = elim (Bool-cases (c == m)) [
  | inl e ↦ rw e (
      subst (λ j. (has_device ((i, c) ∷ ds) j ≡ true) × (release ((i, c + 1) ∷ ds) j ≡ (i, c) ∷ ds))
        (some_inj (rw e at h))
        (ap (λ b. b || has_device ds i) (int_eq_refl i), release-first i c ds))
  | inr e ↦ rw e (later (take_slot-release m ds id distinct.1 (rw e at h)))
]
  where
    later :
        (has_device ds id ≡ true) × (release (take_slot m ds).1 id ≡ ds)
        → (has_device ((i, c) ∷ ds) id ≡ true)
          × (release ((i, c) ∷ (take_slot m ds).1) id ≡ (i, c) ∷ ds)
    later r = (
      ground (arith, r.0),
      release-rest i c (take_slot m ds).1 id (int_eq-apart ds i id distinct.0 r.0)
          ∙ ap (λ (x : List (ℤ × ℕ)). (i, c) ∷ x) r.1,
    )

take_least-release :
    (ds : List (ℤ × ℕ)) (o : Option ℕ) (id : ℤ)
    → AreDistinct ds
    → (take_least ds o).0 ≡ some id
    → release (take_least ds o).1 id ≡ ds
take_least-release ds none id distinct h = absurd (none-ne-some h)
take_least-release ds (some m) id distinct h = (take_slot-release m ds id distinct h).1

-- Where no identifier occurs twice, the device that acquire returns, released at once, leaves the
-- devices and their counts as they were before.
pub acquire-release :
    (ds : List (ℤ × ℕ)) (id : ℤ)
    → AreDistinct ds
    → (acquire ds).0 ≡ some id
    → release (acquire ds).1 id ≡ ds
unfolding acquire
acquire-release ds id distinct h = take_least-release ds _ id distinct h
