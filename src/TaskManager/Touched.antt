-- ===== src/TaskManager/Touched.antt =====
-- The loops of src/pipeline/TaskManager.cpp that build and erase entries change only entries, keep
-- these in step with their executors, and add none but those of the given tasks.
use mathlib.Core.Path.{subst}
use inference_server.Shared.{
  ◌≡◌, refl, sym, ap, inl, inr, Bool, true, false, ◌||◌, String, List, [], ◌∷◌, Option, none, some,
  arith, lookup, insert, erase, lookup-insert, lookup-erase, if◌then◌else◌, Bool-cases, str_eq,
  eq_iff, All, none-ne-some,
}
use inference_server.Config.{StageConfig, TaskConfig}
use inference_server.Graph.{Stage}
use inference_server.TaskManager.{TaskManager, Entry, Reply, returns, throws, Context, build_entry}
use inference_server.TaskManager.Frame.{
  IsFrame, IsFrame-refl, IsFrame-trans, Agrees, Built, build_entry_cases,
}
use inference_server.TaskManager.Tasks.{
  has_entry, erase_entries, rebuild, restore_entries, rebuild_next, restore_next,
}
use inference_server.TaskManager.Entries.{build_next, build_tasks}

module _ {P : Type 0} where
  -- Every entry's state is its executor's.
  abbrev pub AllAgree : TaskManager P → Type 0
  AllAgree m = (id : String) (e : Entry P) → lookup m.entries id ≡ some e → Agrees e

  pub insert-AllAgree :
      (m : TaskManager P) (id : String) (e : Entry P)
      → AllAgree m
      → Agrees e
      → AllAgree (record m { entries = insert m.entries id e })
  insert-AllAgree m id e all new j f h = by_key (rw (lookup-insert m.entries id e j) at h)
    where
      by_key : (if str_eq id j then some e else lookup m.entries j) ≡ some f → Agrees f
      by_key h' = elim (Bool-cases (str_eq id j)) [
        | inl k ↦ ground arith
        | inr k ↦ all j f (rw k at h')
      ]

  pub erase-AllAgree :
      (m : TaskManager P) (id : String)
      → AllAgree m
      → AllAgree (record m { entries = erase m.entries id })
  erase-AllAgree m id all j f h = by_key (rw (lookup-erase m.entries id j) at h)
    where
      by_key : (if str_eq id j then none else lookup m.entries j) ≡ some f → Agrees f
      by_key h' = elim (Bool-cases (str_eq id j)) [
        | inl k ↦ absurd (none-ne-some (rw k at h'))
        | inr k ↦ all j f (rw k at h')
      ]

  module _ (allowed : String → Bool) where
    pub record IsTouched (m m' : TaskManager P) : Type 0 where
      pub frame : IsFrame m m'
      pub agree : AllAgree m → AllAgree m'
      pub entries : (id : String) → has_entry m' id ≡ true → (has_entry m id || allowed id) ≡ true

    pub IsTouched-refl : (m : TaskManager P) → IsTouched m m
    IsTouched-refl m = record {
      frame = IsFrame-refl m;
      agree = λ all. all;
      entries = λ id h. ground arith;
    }

    pub IsTouched-trans : {a b c : TaskManager P} → IsTouched a b → IsTouched b c → IsTouched a c
    IsTouched-trans {a} {b} {c} s t = record {
      frame = IsFrame-trans s.frame t.frame;
      agree = λ all. t.agree (s.agree all);
      entries = λ id h. ground (arith, s.entries id, t.entries id h);
    }

    pub insert-IsTouched :
        (m : TaskManager P) (id : String) (e : Entry P)
        → Agrees e
        → allowed id ≡ true
        → IsTouched m (record m { entries = insert m.entries id e })
    insert-IsTouched m id e new ok = record {
      frame = record { cfg = refl; runtime_state = refl; saves = refl };
      agree = λ all. insert-AllAgree m id e all new;
      entries = λ j h. ground (arith, lookup-insert m.entries id e j, eq_iff id j, ap allowed);
    }

    pub erase-IsTouched :
        (m : TaskManager P) (id : String) → IsTouched m (record m { entries = erase m.entries id })
    erase-IsTouched m id = record {
      frame = record { cfg = refl; runtime_state = refl; saves = refl };
      agree = λ all. erase-AllAgree m id all;
      entries = λ j h. ground (arith, lookup-erase m.entries id j);
    }

    pub erase_entries-IsTouched :
        (m : TaskManager P) (ts : List TaskConfig) → IsTouched m (erase_entries m ts)
    unfolding erase_entries
    erase_entries-IsTouched m [] = IsTouched-refl m
    erase_entries-IsTouched m (t ∷ ts) =
        IsTouched-trans (erase-IsTouched m t.id)
          (erase_entries-IsTouched (record m { entries = erase m.entries t.id }) ts)

    module _ (create : StageConfig → Context → Option Stage) (fails : String → String → Bool) where
      Built-IsTouched :
          (m : TaskManager P) (task : TaskConfig) (r : Reply × TaskManager P)
          → allowed task.id ≡ true
          → Built m task r
          → IsTouched m r.1
      Built-IsTouched m task r ok (inl (same, _)) =
          subst (IsTouched m) (sym same) (IsTouched-refl m)
      Built-IsTouched m task r ok (inr (e, put, agrees)) =
          subst (λ s. IsTouched m s.1) (sym put) (insert-IsTouched m task.id e agrees ok)

      pub build_entry-IsTouched :
          (m : TaskManager P) (task : TaskConfig) (autostart : Bool)
          → allowed task.id ≡ true
          → IsTouched m (build_entry create fails m task autostart).1
      build_entry-IsTouched m task autostart ok =
          Built-IsTouched m task _ ok (build_entry_cases create fails m task autostart)

      rebuild_next-IsTouched :
          (m : TaskManager P) (r : Reply × TaskManager P)
          (rest : TaskManager P → Option Reply × TaskManager P)
          → IsTouched m r.1
          → ((m' : TaskManager P) → IsTouched m' (rest m').1)
          → IsTouched m (rebuild_next create fails r rest).1
      rebuild_next-IsTouched m (throws, m') rest h k = h
      rebuild_next-IsTouched m (returns false, m') rest h k = h
      rebuild_next-IsTouched m (returns true, m') rest h k = IsTouched-trans h (k m')

      pub rebuild-IsTouched :
          (m : TaskManager P) (ts : List TaskConfig)
          → All (λ t. allowed t.id ≡ true) ts
          → IsTouched m (rebuild create fails m ts).1
      unfolding rebuild
      rebuild-IsTouched m [] ok = IsTouched-refl m
      rebuild-IsTouched m (t ∷ ts) ok =
          rebuild_next-IsTouched m (build_entry create fails m t false) _
            (build_entry-IsTouched m t false ok.0) (λ m'. rebuild-IsTouched m' ts ok.1)

      restore_next-IsTouched :
          (m : TaskManager P) (r : Reply × TaskManager P)
          (rest : TaskManager P → Reply × TaskManager P)
          → IsTouched m r.1
          → ((m' : TaskManager P) → IsTouched m' (rest m').1)
          → IsTouched m (restore_next create fails r rest).1
      restore_next-IsTouched m (throws, m') rest h k = h
      restore_next-IsTouched m (returns b, m') rest h k = IsTouched-trans h (k m')

      pub restore_entries-IsTouched :
          (m : TaskManager P) (ts : List TaskConfig)
          → All (λ t. allowed t.id ≡ true) ts
          → IsTouched m (restore_entries create fails m ts).1
      unfolding restore_entries
      restore_entries-IsTouched m [] ok = IsTouched-refl m
      restore_entries-IsTouched m (t ∷ ts) ok =
          restore_next-IsTouched m (build_entry create fails m t false) _
            (build_entry-IsTouched m t false ok.0) (λ m'. restore_entries-IsTouched m' ts ok.1)

      build_next-IsTouched :
          (m : TaskManager P) (r : Reply × TaskManager P)
          (rest : TaskManager P → TaskManager P × Bool)
          → IsTouched m r.1
          → ((m' : TaskManager P) → IsTouched m' (rest m').0)
          → IsTouched m (build_next create fails r rest).0
      build_next-IsTouched m (throws, m') rest h k = h
      build_next-IsTouched m (returns b, m') rest h k = IsTouched-trans h (k m')

      pub build_tasks-IsTouched :
          (m : TaskManager P) (ts : List TaskConfig)
          → All (λ t. allowed t.id ≡ true) ts
          → IsTouched m (build_tasks create fails m ts).0
      unfolding build_tasks
      build_tasks-IsTouched m [] ok = IsTouched-refl m
      build_tasks-IsTouched m (t ∷ ts) ok =
          build_next-IsTouched m (build_entry create fails m t false) _
            (build_entry-IsTouched m t false ok.0) (λ m'. build_tasks-IsTouched m' ts ok.1)
