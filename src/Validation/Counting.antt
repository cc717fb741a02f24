-- ===== src/Validation/Counting.antt =====
-- How often names occur in the lists of the search for cycles of src/common/Config.cpp.
use text.Mathlib.TextPositions.{eq_refl}
use inference_server.Shared.{
  ◌≡◌, refl, ℕ, suc, ◌+◌, ◌-◌, ◌≤◌, leb, Bool, true, false, not, ◌&&◌, String, List, [], ◌∷◌, ◌++◌,
  str_eq, if◌then◌else◌, length, keep_if, arith, eq_iff,
}
use inference_server.Config.{EdgeConfig}
use inference_server.Validation.{contains, check_edge, check_edges}
use inference_server.Validation.Cycles.{targets, indegree, lower, relax}

-- How often a name occurs.
unfoldable pub count : List String → String → ℕ
count [] t = 0
count (x ∷ xs) t = if str_eq x t then suc (count xs t) else count xs t

pub count-append : (xs ys : List String) (t : String) → count (xs ++ ys) t ≡ count xs t + count ys t
unfolding count
count-append [] ys t = omega arith
count-append (x ∷ xs) ys t = ground (arith, count-append xs ys t)

pub contains-count : (xs : List String) (t : String) → contains xs t ≡ leb 1 (count xs t)
unfolding count
contains-count [] t = ground arith
contains-count (x ∷ xs) t = ground (arith, contains-count xs t)

-- The list without one occurrence.
unfoldable drop_one : List String → String → List String
drop_one [] t = []
drop_one (x ∷ xs) t = if str_eq x t then xs else x ∷ drop_one xs t

count-drop_one :
    (xs : List String) (t j : String)
    → 1 ≤ count xs t
    → count xs j ≡ count (drop_one xs t) j + (if str_eq t j then 1 else 0)
unfolding count drop_one
count-drop_one [] t j h = absurd (omega (arith, h))
count-drop_one (x ∷ xs) t j h =
    ground (arith, count-drop_one xs t j, eq_iff x t, eq_iff t j, eq_iff x j)

length-drop_one :
    (xs : List String) (t : String) → 1 ≤ count xs t → length xs ≡ suc (length (drop_one xs t))
unfolding count drop_one
length-drop_one [] t h = absurd (omega (arith, h))
length-drop_one (x ∷ xs) t h = ground (arith, length-drop_one xs t)

pub length-count-le :
    (xs ys : List String) → ((t : String) → count xs t ≤ count ys t) → length xs ≤ length ys
unfolding count
length-count-le [] ys h = omega arith
length-count-le (x ∷ xs) ys h =
    let there : 1 ≤ count ys x = ground (arith, h x, eq_refl x) in
    let rest =
      length-count-le xs (drop_one ys x) (λ t. ground (arith, h t, count-drop_one ys x t there)) in
    omega (arith, rest, length-drop_one ys x there)

-- Two lists of one length, where one has every name at most as often as the other, have the same names.
pub count-le_of_length :
    (xs ys : List String)
    → ((t : String) → count xs t ≤ count ys t)
    → length ys ≤ length xs
    → (t : String) → count ys t ≤ count xs t
unfolding count
count-le_of_length [] [] h le t = omega arith
count-le_of_length [] (y ∷ ys) h le t = absurd (omega (arith, le))
count-le_of_length (x ∷ xs) ys h le t =
    let there : 1 ≤ count ys x = ground (arith, h x, eq_refl x) in
    let rest =
      count-le_of_length xs (drop_one ys x) (λ t. ground (arith, h t, count-drop_one ys x t there))
        (omega (arith, le, length-drop_one ys x there)) t in
    ground (arith, rest, count-drop_one ys x t there)

pub count-keep_if :
    (p : String → Bool) (xs : List String) (t : String)
    → count (keep_if p xs) t ≡ (if p t then count xs t else 0)
unfolding count
count-keep_if p [] t = ground arith
count-keep_if p (x ∷ xs) t = ground (arith, count-keep_if p xs t, eq_iff x t)

-- The edges to a node from nodes that are not in the list.
unfoldable pub pending : List EdgeConfig → List String → String → ℕ
pending [] done t = 0
pending (e ∷ es) done t =
    if str_eq e.to t && not (contains done e.from)
    then suc (pending es done t)
    else pending es done t

pub relax-lowers :
    (d : String → ℕ) (ts : List String) (t : String) → (relax d ts).0 t ≡ d t - count ts t
unfolding relax count
relax-lowers d [] t = omega arith
relax-lowers d (s ∷ ts) t = ground (arith, relax-lowers (lower d s) ts t)

pub relax-queues :
    (d : String → ℕ) (ts : List String) (t : String)
    → count (relax d ts).1 t ≡ (if leb 1 (d t) && leb (d t) (count ts t) then 1 else 0)
unfolding relax count
relax-queues d [] t = ground arith
relax-queues d (s ∷ ts) t = ground (arith, relax-queues (lower d s) ts t, eq_iff s t)

pub pending-add :
    (es : List EdgeConfig) (done : List String) (cur t : String)
    → contains done cur ≡ false
    → pending es done t ≡ pending es (cur ∷ done) t + count (targets es cur) t
unfolding pending targets count
pending-add [] done cur t h = omega arith
pending-add (e ∷ es) done cur t h =
    ground (arith, pending-add es done cur t h, eq_iff e.from cur, eq_iff cur e.from)

pub pending-nil : (es : List EdgeConfig) (t : String) → pending es [] t ≡ indegree es t
unfolding pending indegree
pending-nil [] t = refl
pending-nil (e ∷ es) t = ground (arith, pending-nil es t)

-- An edge's target is a node.
pub targets-contains :
    (ids : List String) (es : List EdgeConfig) (cur t : String)
    → check_edges ids es ≡ true
    → 1 ≤ count (targets es cur) t
    → contains ids t ≡ true
unfolding check_edges check_edge targets count
targets-contains ids [] cur t h k = absurd (omega (arith, k))
targets-contains ids (e ∷ es) cur t h k =
    ground (arith, targets-contains ids es cur t, eq_iff e.to t)
