-- ===== src/TaskManager/Agreement.antt =====
-- Whether an entry of src/pipeline/TaskManager.cpp is marked as running and whether its executor runs:
-- `start` and `stop` that run one after the other keep the two alike, and in one order of their halves
-- they do not.
use text.Mathlib.TextPositions.{eq_refl}
use inference_server.Shared.{
  ◌≡◌, refl, sym, ap, ◌∙◌, inl, inr, Bool, true, false, String, Option, none, some, arith, lookup,
  lookup-insert, if◌then◌else◌, Bool-cases, str_eq, eq_iff,
}
use inference_server.Graph.Running.{start-running, stop-running}
use inference_server.TaskManager.{TaskManager, Entry, State, stopped, running}
use inference_server.TaskManager.Entries.{
  is_running, start, stop, start_mark, start_run, stop_mark, stop_run, put, start_found, stop_found,
  mark_running, mark_stopped, mark_running_found, mark_stopped_found,
}
use inference_server.TaskManager.Frame.{Agrees}
use inference_server.TaskManager.Touched.{AllAgree}

module _ {P : Type 0} where
  abbrev OthersAgree : TaskManager P → String → Type 0
  OthersAgree m id =
      (j : String) (f : Entry P) → str_eq id j ≡ false → lookup m.entries j ≡ some f → Agrees f

  put-OthersAgree :
      (m : TaskManager P) (id : String) (e : Entry P)
      → OthersAgree m id
      → OthersAgree (put m id e) id
  put-OthersAgree m id e others j f other h = others j f other (
      sym
        (lookup-insert m.entries id e j ∙ ap (λ b. if b then some e else lookup m.entries j) other)
      ∙ h)

  put-AllAgree :
      (m : TaskManager P) (id : String) (e : Entry P)
      → OthersAgree m id
      → Agrees e
      → AllAgree (put m id e)
  put-AllAgree m id e others new j f h = by_key (rw (lookup-insert m.entries id e j) at h)
    where
      by_key : (if str_eq id j then some e else lookup m.entries j) ≡ some f → Agrees f
      by_key h' = elim (Bool-cases (str_eq id j)) [
        | inl k ↦ ground arith
        | inr k ↦ others j f k (rw k at h')
      ]

  -- The entry with the identifier, if there is one, has the mark.
  abbrev Marked : Bool → TaskManager P → String → Type 0
  Marked b m id = (e : Entry P) → lookup m.entries id ≡ some e → is_running e ≡ b

  put-Marked :
      (m : TaskManager P) (id : String) (e : Entry P) (b : Bool)
      → is_running e ≡ b
      → Marked b (put m id e) id
  put-Marked m id e b h f there = ground (arith, lookup-insert m.entries id e id, eq_refl id)

  -- The manager between the halves of a method, or after it.
  abbrev Halfway : Bool → String → Bool × TaskManager P × Bool → Type 0
  Halfway b id t =
      (t.2 ≡ true → OthersAgree t.1 id × Marked b t.1 id) × (t.2 ≡ false → AllAgree t.1)

  others : (m : TaskManager P) (id : String) → AllAgree m → OthersAgree m id
  others m id all j f _ h = all j f h

  rest-AllAgree :
      (m : TaskManager P) (id : String) → lookup m.entries id ≡ none → OthersAgree m id → AllAgree m
  rest-AllAgree m id missing h j f there = elim (Bool-cases (str_eq id j)) [
    | inl k ↦ ground (arith, eq_iff id j)
    | inr k ↦ h j f k there
  ]

  mark_running-Halfway :
      (m : TaskManager P) (id : String) (e : Entry P) (s : State)
      → AllAgree m
      → Halfway true id (mark_running m id e s)
  mark_running-Halfway m id e running all = (λ h. cc, λ h. all)
  mark_running-Halfway m id e stopped all =
      (λ h. (put-OthersAgree m id _ (others m id all), put-Marked m id _ true refl), λ h. cc)

  start_mark-Halfway :
      (m : TaskManager P) (id : String) (o : Option (Entry P))
      → AllAgree m
      → Halfway true id (mark_running_found m id o)
  start_mark-Halfway m id none all = (λ h. cc, λ h. all)
  start_mark-Halfway m id (some e) all = mark_running-Halfway m id e e.state all

  mark_stopped-Halfway :
      (m : TaskManager P) (id : String) (e : Entry P) (s : State)
      → AllAgree m
      → Halfway false id (mark_stopped m id e s)
  mark_stopped-Halfway m id e stopped all = (λ h. cc, λ h. all)
  mark_stopped-Halfway m id e running all =
      (λ h. (put-OthersAgree m id _ (others m id all), put-Marked m id _ false refl), λ h. cc)

  stop_mark-Halfway :
      (m : TaskManager P) (id : String) (o : Option (Entry P))
      → AllAgree m
      → Halfway false id (mark_stopped_found m id o)
  stop_mark-Halfway m id none all = (λ h. cc, λ h. all)
  stop_mark-Halfway m id (some e) all = mark_stopped-Halfway m id e e.state all

  stop_found-AllAgree :
      (m : TaskManager P) (id : String) (o : Option (Entry P))
      → lookup m.entries id ≡ o
      → OthersAgree m id × Marked false m id
      → AllAgree (stop_found m id o)
  stop_found-AllAgree m id none there h = rest-AllAgree m id there h.0
  stop_found-AllAgree m id (some e) there h =
      put-AllAgree m id _ h.0 (h.1 e there ∙ sym (stop-running e.executor))

  start_found-AllAgree :
      (fails : String → String → Bool) (m : TaskManager P) (id : String) (o : Option (Entry P))
      → lookup m.entries id ≡ o
      → OthersAgree m id × Marked true m id
      → AllAgree (start_found fails m id o).1
  start_found-AllAgree fails m id none there h = rest-AllAgree m id there h.0
  start_found-AllAgree fails m id (some e) there h =
      put-AllAgree m id _ h.0 (h.1 e there ∙ sym (start-running (fails id) e.executor))

  -- A stop that nothing interrupts leaves every entry marked as running exactly if its executor
  -- runs, if that was so before.
  pub stop-AllAgree : (m : TaskManager P) (id : String) → AllAgree m → AllAgree (stop m id).1
  unfolding stop stop_mark stop_run
  stop-AllAgree m id all = elim (Bool-cases (stop_mark m id).2) [
    | inl e ↦
        rw e (stop_found-AllAgree (stop_mark m id).1 id _ refl ((stop_mark-Halfway m id _ all).0 e))
    | inr e ↦ rw e ((stop_mark-Halfway m id _ all).1 e)
  ]

  -- A start that nothing interrupts leaves every entry marked as running exactly if its executor
  -- runs, if that was so before, also where a stage throws.
  pub start-AllAgree :
      (fails : String → String → Bool) (m : TaskManager P) (id : String)
      → AllAgree m
      → AllAgree (start fails m id).1
  unfolding start start_mark start_run
  start-AllAgree fails m id all = elim (Bool-cases (start_mark m id).2) [
    | inl e ↦ rw e (
        start_found-AllAgree fails (start_mark m id).1 id _ refl
          ((start_mark-Halfway m id _ all).0 e))
    | inr e ↦ rw e ((start_mark-Halfway m id _ all).1 e)
  ]
