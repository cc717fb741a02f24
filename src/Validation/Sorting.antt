-- ===== src/Validation/Sorting.antt =====
-- The search for cycles of src/common/Config.cpp accepts the graphs whose nodes can be put in an order.
use mathlib.Core.Bool.{false≢true}
use text.Mathlib.TextPositions.{eq_refl}
use inference_server.Shared.{
  ◌≡◌, refl, sym, ap, ◌∙◌, ◌↔◌, ℕ, zero, suc, ◌+◌, ◌==◌, ◌≤◌, leb, true, false, ◌&&◌, String, List,
  [], ◌∷◌, ◌++◌, Option, none, some, str_eq, if◌then◌else◌, length, keep_if, arith, eq_iff,
  Bool-cases, inl, inr, length-append, some_inj,
}
use inference_server.Config.{EdgeConfig}
use inference_server.Validation.{contains, check_edges}
use inference_server.Validation.Counting.{
  count, count-append, contains-count, length-count-le, count-le_of_length, count-keep_if, pending,
  relax-lowers, relax-queues, pending-add, pending-nil, targets-contains,
}
use inference_server.Validation.Cycles.{
  targets, indegree, relax, visit_nodes, visits_all, has_no_cycle,
}

-- Each node comes after the nodes that its edges come from; the last is first.
unfoldable pub IsOrdered : List EdgeConfig → List String → Type 0
IsOrdered es [] = Unit
IsOrdered es (x ∷ done) = (pending es done x ≡ 0) × IsOrdered es done

module _ (ids : List String) (es : List EdgeConfig) (valid : check_edges ids es ≡ true) where
  -- The state of the loop: the visited nodes, latest first, and the queue.
  record IsSorting (done q : List String) (d : String → ℕ) : Type 0 where
    numbers : (t : String) → d t ≡ pending es done t
    members :
        (t : String) → count done t + count q t ≡ (if contains ids t && leb (d t) 0 then 1 else 0)

  visit-IsSorting :
      (done : List String) (cur : String) (q : List String) (d : String → ℕ)
      → IsSorting done (cur ∷ q) d
      → IsSorting (cur ∷ done) (q ++ (relax d (targets es cur)).1) (relax d (targets es cur)).0
  unfolding count
  visit-IsSorting done cur q d s =
      let fresh : contains done cur ≡ false =
        ground (arith, contains-count done cur, s.members cur, eq_refl cur) in
      let ts = targets es cur in
      record {
        numbers =
            λ t. omega (arith, relax-lowers d ts t, s.numbers t, pending-add es done cur t fresh);
        members = λ t. ground (
          arith,
          s.members t,
          relax-lowers d ts t,
          relax-queues d ts t,
          count-append q (relax d ts).1 t,
          targets-contains ids es cur t valid,
        );
      }

  bounded :
      (done q : List String) (d : String → ℕ)
      → IsSorting done q d
      → length done + length q ≤ length ids
  bounded done q d s =
      let le =
        length-count-le (done ++ q) ids
          (λ t. ground (arith, s.members t, count-append done q t, contains-count ids t)) in
      omega (arith, le, length-append done q)

  abbrev Ends : Option ℕ → Type 0
  Ends o =
      (done : List String) × (d : String → ℕ) × (o ≡ some (length done))
      × IsSorting done [] d
      × IsOrdered es done

  visit_nodes-Ends :
      (fuel : ℕ) (done q : List String) (d : String → ℕ) (visited : ℕ)
      → IsSorting done q d
      → IsOrdered es done
      → length done ≡ visited
      → length ids ≤ fuel + length done
      → Ends (visit_nodes es fuel d q visited)
  unfolding visit_nodes IsOrdered count
  visit_nodes-Ends fuel done [] d visited s o e enough = (done, d, ap some (sym e), s, o)
  visit_nodes-Ends zero done (cur ∷ q) d visited s o e enough =
      absurd (omega (arith, enough, bounded done (cur ∷ q) d s))
  visit_nodes-Ends (suc fuel) done (cur ∷ q) d visited s o e enough =
      let ts = targets es cur in
      visit_nodes-Ends fuel (cur ∷ done) (q ++ (relax d ts).1) (relax d ts).0 (suc visited)
        (visit-IsSorting done cur q d s)
        (ground (arith, s.numbers cur, s.members cur, eq_refl cur), o) (ap suc e)
        (omega (arith, enough))

  -- What an order has visited is visited by the loop.
  pending-le :
      (xs done : List String) (t : String)
      → ((f : String) → contains xs f ≡ true → contains done f ≡ true)
      → pending es done t ≤ pending es xs t
  unfolding pending
  pending-le xs done t h = pending_le es
    where
      pending_le : (es : List EdgeConfig) → pending es done t ≤ pending es xs t
      pending_le [] = omega arith
      pending_le (e ∷ es) = ground (arith, h e.from, pending_le es)

  covers :
      (order done : List String) (d : String → ℕ)
      → IsSorting done [] d
      → IsOrdered es order
      → ((t : String) → contains order t ≡ true → contains ids t ≡ true)
      → (t : String) → contains order t ≡ true
      → contains done t ≡ true
  unfolding IsOrdered count
  covers [] done d s o within t h = absurd (false≢true h)
  covers (x ∷ order) done d s o within t h =
      let rest = covers order done d s o.1 (λ f k. within f (ground arith)) in
      let here : contains done x ≡ true = ground (
        arith,
        pending-le order done x rest,
        o.0,
        s.numbers x,
        s.members x,
        within x,
        contains-count done x,
        eq_refl x,
      ) in
      elim (Bool-cases (str_eq x t)) [
        | inl e ↦ ap (contains done) (sym ((eq_iff x t).0 e)) ∙ here
        | inr e ↦ rest t (ground arith)
      ]

-- An order of the nodes, the last one first: it has every node and no other name, and each node comes after
-- the nodes that its edges come from.
unfoldable pub IsTopological : List String → List EdgeConfig → List String → Type 0
IsTopological ids es order = IsOrdered es order × ((t : String) → contains order t ≡ contains ids t)

module _ (ids : List String) (es : List EdgeConfig) (valid : check_edges ids es ≡ true)
    (distinct : (t : String) → count ids t ≤ 1) where
  search-Ends :
      Ends ids es valid
        (visit_nodes es (length ids) (indegree es) (keep_if (λ id. indegree es id == 0) ids) 0)
  unfolding count IsOrdered
  search-Ends =
      visit_nodes-Ends ids es valid (length ids) [] (keep_if (λ id. indegree es id == 0) ids)
        (indegree es) 0
        (record {
          numbers = λ t. sym (pending-nil es t);
          members = λ t. ground (
            arith,
            distinct t,
            contains-count ids t,
            count-keep_if (λ id. indegree es id == 0) ids t,
          );
        })
        tt refl (omega arith)

  sound :
      (o : Option ℕ)
      → Ends ids es valid o
      → visits_all (length ids) o ≡ true
      → (order : List String) × IsTopological ids es order
  unfolding IsTopological count
  sound none (done, d, e, s, o) h = absurd (false≢true h)
  sound (some n) (done, d, e, s, o) h =
      let all_there =
        count-le_of_length done ids (λ t. ground (arith, s.members t, contains-count ids t))
          (ground (arith, some_inj e)) in
      (
        done,
        (
          o,
          λ t.
              ground (arith, all_there t, s.members t, contains-count ids t, contains-count done t),
        ),
      )

  complete :
      (o : Option ℕ)
      → Ends ids es valid o
      → (order : List String) → IsTopological ids es order
      → visits_all (length ids) o ≡ true
  unfolding IsTopological count
  complete o (done, d, e, s, ordered) order (by, same) =
      let le = bounded ids es valid done [] d s in
      let ge = length-count-le ids done (λ t. ground (
        arith,
        distinct t,
        contains-count ids t,
        contains-count done t,
        same t,
        covers ids es valid order done d s by (λ f k. sym (same f) ∙ k) t,
      )) in
      rw e (ground (arith, le, ge))

  pub has_no_cycle-IsTopological :
      (has_no_cycle es ids ≡ true) ↔ ((order : List String) × IsTopological ids es order)
  unfolding has_no_cycle
  has_no_cycle-IsTopological = (sound _ search-Ends, λ (order, t). complete _ search-Ends order t)
