-- ===== src/Shared/Options.antt =====
-- Results that may be missing: the chain of exceptions, and loops whose body may throw.
use mathlib.Core.Path.{◌≡◌, refl}
use mathlib.Core.Option.{Option, none, some}
use mathlib.Core.List.{List, [], ◌∷◌, map}
use inference_server.Shared.Lists.{All}

infixl 5 ◌>>=◌
abbrev pub ◌>>=◌ {ℓ κ} : {A : Type ℓ} {B : Type κ} → Option A → (A → Option B) → Option B
none >>= f = none
some a >>= f = f a

-- The results of the body for each entry, in order.
unfoldable pub traverse {ℓ κ} :
    {A : Type ℓ} {B : Type κ} → (A → Option B) → List A → Option (List B)
traverse f [] = some []
traverse f (x ∷ xs) = f x >>= λ y. traverse f xs >>= λ ys. some (y ∷ ys)

-- A loop that reads back what another one wrote.
pub traverse-map {ℓ κ} :
    {A : Type ℓ} {B : Type κ} (write : A → B) (read : B → Option A) (xs : List A)
    → All (λ x. read (write x) ≡ some x) xs
    → traverse read (map write xs) ≡ some xs
unfolding traverse
traverse-map write read [] h = refl
traverse-map write read (x ∷ xs) h = rw (h.0, traverse-map write read xs h.1) refl

pub All-of {ℓ κ} : {A : Type ℓ} (P : A → Type κ) (xs : List A) → ((x : A) → P x) → All P xs
All-of P [] f = tt
All-of P (x ∷ xs) f = (f x, All-of P xs f)
