-- ===== src/ModelManager/Pipelines.antt =====
-- The pipelines that src/pipeline/ModelManager.cpp starts and stops.
use inference_server.Shared.{
  ◌≡◌, refl, ap, ◌∙◌, ℕ, suc, ◌+◌, Bool, true, false, String, List, [], ◌∷◌, ◌++◌, Option, none,
  some, if◌then◌else◌, lookup, insert, erase, lookup-insert, lookup-erase, length, arith, str_eq,
  eq_iff, is_some, inl, inr, Bool-cases,
}
use inference_server.Config.{ModelConfig}
use inference_server.Json.{has_distinct_keys}
use inference_server.ModelManager.{
  ready, Pipeline, ModelEntry, ModelManager, Call, starts, stops, Result, Command, loads, unloads,
  swaps, make, is_ready, load_started, load, unload_found, unload, swap_started, swap_found, swap,
  obey, obey_all,
}

module _ {V : Type 0} where
  distinct-insert :
      (m : List (String × V)) (k : String) (v : V)
      → has_distinct_keys m ≡ true
      → has_distinct_keys (insert m k v) ≡ true
  unfolding has_distinct_keys insert lookup
  distinct-insert [] k v h = refl
  distinct-insert ((j, w) ∷ m) k v h =
      ground (arith, distinct-insert m k v, lookup-insert m k v j, eq_iff j k, eq_iff k j)

  distinct-erase :
      (m : List (String × V)) (k : String)
      → has_distinct_keys m ≡ true
      → has_distinct_keys (erase m k) ≡ true
  unfolding has_distinct_keys erase
  distinct-erase [] k h = refl
  distinct-erase ((j, w) ∷ m) k h = ground (arith, distinct-erase m k, lookup-erase m k j)

  length-insert :
      (m : List (String × V)) (k : String) (v : V)
      → length (insert m k v) ≡ (if is_some (lookup m k) then length m else suc (length m))
  unfolding insert lookup
  length-insert [] k v = omega arith
  length-insert ((j, w) ∷ m) k v = ground (arith, length-insert m k v)

  length-erase :
      (m : List (String × V)) (k : String)
      → has_distinct_keys m ≡ true
      → length m ≡ (if is_some (lookup m k) then suc (length (erase m k)) else length (erase m k))
  unfolding erase lookup has_distinct_keys
  length-erase [] k h = omega arith
  length-erase ((j, w) ∷ m) k h = ground (arith, length-erase m k, eq_iff j k)

-- How many calls start a pipeline, and how many stop one.
unfoldable pub started : List Call → ℕ
started [] = 0
started (starts p ∷ cs) = suc (started cs)
started (stops p ∷ cs) = started cs

unfoldable pub ended : List Call → ℕ
ended [] = 0
ended (starts p ∷ cs) = ended cs
ended (stops p ∷ cs) = suc (ended cs)

started-append : (xs ys : List Call) → started (xs ++ ys) ≡ started xs + started ys
unfolding started
started-append [] ys = omega arith
started-append (starts p ∷ xs) ys = omega (arith, started-append xs ys)
started-append (stops p ∷ xs) ys = started-append xs ys

ended-append : (xs ys : List Call) → ended (xs ++ ys) ≡ ended xs + ended ys
unfolding ended
ended-append [] ys = omega arith
ended-append (starts p ∷ xs) ys = ended-append xs ys
ended-append (stops p ∷ xs) ys = omega (arith, ended-append xs ys)

-- Between calls every entry is ready.
pub record IsSettled (m : ModelManager) : Type 0 where
  pub distinct : has_distinct_keys m.entries ≡ true
  pub all_ready : (id : String) → is_some (lookup m.entries id) ≡ is_ready (lookup m.entries id)

-- The entries are as many as before, with what was started and without what was stopped.
record IsBalanced (m : ModelManager) (r : Result) : Type 0 where
  settled : IsSettled (r.manager)
  balance : length m.entries + started r.calls ≡ length r.manager.entries + ended r.calls

ready-if :
    (b : Bool) (o o' : Option ModelEntry)
    → is_some o ≡ is_ready o
    → is_some o' ≡ is_ready o'
    → is_some (if b then o else o') ≡ is_ready (if b then o else o')
ready-if true o o' h k = h
ready-if false o o' h k = k

erase-IsSettled :
    (m : ModelManager) (id : String)
    → IsSettled m
    → IsSettled (record m { entries = erase m.entries id })
erase-IsSettled m id s = record {
  distinct = distinct-erase m.entries id s.distinct;
  all_ready =
      λ j. rw (lookup-erase m.entries id j) (ready-if (str_eq id j) none _ refl (s.all_ready j));
}

insert-IsSettled :
    (m : ModelManager) (id : String) (cfg : ModelConfig) (p : Pipeline)
    → IsSettled m
    → IsSettled (record m {
      entries = insert m.entries id (record { cfg = cfg; state = ready; pipeline = p });
    })
insert-IsSettled m id cfg p s =
    let e : ModelEntry = record { cfg = cfg; state = ready; pipeline = p } in
    record {
      distinct = distinct-insert m.entries id e s.distinct;
      all_ready = λ j.
          rw (lookup-insert m.entries id e j)
            (ready-if (str_eq id j) (some e) _ refl (s.all_ready j));
    }

load_started-IsBalanced :
    (m : ModelManager) (cfg : ModelConfig) (o : Option Pipeline)
    → IsSettled m
    → is_some (lookup m.entries cfg.id) ≡ false
    → IsBalanced m (load_started m cfg o)
unfolding started ended
load_started-IsBalanced m cfg none s absent = record {
  settled = erase-IsSettled m cfg.id s;
  balance = ground (arith, length-erase m.entries cfg.id s.distinct);
}
load_started-IsBalanced m cfg (some p) s absent = record {
  settled = insert-IsSettled m cfg.id cfg p s;
  balance =
      ground
        (arith, length-insert m.entries cfg.id (record { cfg = cfg; state = ready; pipeline = p }));
}

unload_found-IsBalanced :
    (m : ModelManager) (id : String) (o : Option ModelEntry)
    → lookup m.entries id ≡ o
    → IsSettled m
    → IsBalanced m (unload_found m id o)
unfolding started ended
unload_found-IsBalanced m id none e s = record { settled = s; balance = refl }
unload_found-IsBalanced m id (some w) e s = record {
  settled = erase-IsSettled m id s;
  balance = ground (arith, length-erase m.entries id s.distinct, ap is_some e);
}

swap_started-IsBalanced :
    (m : ModelManager) (id : String) (cfg : ModelConfig) (old : ModelEntry) (o : Option Pipeline)
    → lookup m.entries id ≡ some old
    → IsSettled m
    → IsBalanced m (swap_started m id cfg old o)
unfolding started ended
swap_started-IsBalanced m id cfg old none e s = record { settled = s; balance = refl }
swap_started-IsBalanced m id cfg old (some p) e s = record {
  settled = insert-IsSettled m id cfg p s;
  balance = ground (
    arith,
    length-insert m.entries id (record { cfg = cfg; state = ready; pipeline = p }),
    ap is_some e,
  );
}

module _ (fails : ModelConfig → Bool) where
  load-IsBalanced :
      (m : ModelManager) (cfg : ModelConfig) → IsSettled m → IsBalanced m (load fails m cfg)
  unfolding load started ended
  load-IsBalanced m cfg s = elim (Bool-cases (is_ready (lookup m.entries cfg.id))) [
    | inl e ↦ rw e (record {
      settled = record { distinct = s.distinct; all_ready = s.all_ready };
      balance = refl;
    })
    | inr e ↦ rw e (
        again (
          load_started-IsBalanced _ cfg _
            (record { distinct = s.distinct; all_ready = s.all_ready }) (s.all_ready cfg.id ∙ e)))
  ]
    where
      m' : ModelManager
      m' = record m { all_model_cfgs = insert m.all_model_cfgs cfg.id cfg }

      again : {r : Result} → IsBalanced m' r → IsBalanced m r
      again b = record { settled = b.settled; balance = b.balance }

  swap_found-IsBalanced :
      (m : ModelManager) (id : String) (cfg : ModelConfig) (o : Option ModelEntry)
      → lookup m.entries id ≡ o
      → IsSettled m
      → IsBalanced m (swap_found fails m id cfg o)
  swap_found-IsBalanced m id cfg none e s = load-IsBalanced m cfg s
  swap_found-IsBalanced m id cfg (some old) e s = swap_started-IsBalanced m id cfg old _ e s

  obey-IsBalanced : (m : ModelManager) (c : Command) → IsSettled m → IsBalanced m (obey fails m c)
  unfolding obey unload swap
  obey-IsBalanced m (loads cfg) s = load-IsBalanced m cfg s
  obey-IsBalanced m (unloads id) s = unload_found-IsBalanced m id _ refl s
  obey-IsBalanced m (swaps id cfg) s = swap_found-IsBalanced m id cfg _ refl s

  obey_all-IsSettled :
      (m : ModelManager) (cs : List Command)
      → IsSettled m
      → IsSettled (obey_all fails m cs).0
        × (length m.entries + started (obey_all fails m cs).1
            ≡ length (obey_all fails m cs).0.entries + ended (obey_all fails m cs).1)
  unfolding obey_all started ended
  obey_all-IsSettled m [] s = (s, refl)
  obey_all-IsSettled m (c ∷ cs) s =
      let b = obey-IsBalanced m c s in
      let rest = obey_all-IsSettled (obey fails m c).manager cs b.settled in
      let calls = (obey fails m c).calls in
      let later = (obey_all fails (obey fails m c).manager cs).1 in
      (
        rest.0,
        omega (arith, b.balance, rest.1, started-append calls later, ended-append calls later),
      )

  -- After any loads, unloads and swaps of a new manager, whichever pipelines fail to start, no
  -- identifier has two entries, every entry is ready, and the pipelines that were started are as
  -- many as the entries and the pipelines that were stopped.
  pub obey_all-balance :
      (cfgs : List ModelConfig) (cs : List Command)
      → IsSettled (obey_all fails (make cfgs) cs).0
        × (started (obey_all fails (make cfgs) cs).1
            ≡ length (obey_all fails (make cfgs) cs).0.entries
              + ended (obey_all fails (make cfgs) cs).1)
  unfolding make has_distinct_keys lookup
  obey_all-balance cfgs cs =
      let (s, e) =
        obey_all-IsSettled (make cfgs) cs (record { distinct = refl; all_ready = λ id. refl }) in
      (s, omega (arith, e))
