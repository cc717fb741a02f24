-- ===== src/TaskManager/Restart/Sequences.antt =====
-- A restart after a sequence of edits (src/pipeline/TaskManager.cpp, src/common/RuntimeState.cpp).
use inference_server.Shared.{All, ◌≡◌, ℕ, true, String, List, [], ◌∷◌, length, Option, none, some}
use inference_server.Shared.Int.{ℤ}
use inference_server.Config.{AppConfig, find_source, find_pipeline, find_task, find_model}
use inference_server.Json.{Json, IsLawful}
use inference_server.RuntimeState.{RuntimeState, apply_runtime_state}
use inference_server.RuntimeState.Writing.{state_to_json}
use inference_server.RuntimeState.Loading.{Disk, load_runtime_state, runtime_state_path}
use inference_server.RuntimeState.Restored.{IsRecorded, load-saved}
use inference_server.TaskManager.{TaskManager, make, made, write_saves}
use inference_server.TaskManager.Restart.{
  Edit, IsNew, edit, edit_all, latest, IsRecoverable, edit-IsRecoverable,
}

-- The two configurations find the same under every identifier.
abbrev pub FindSame : AppConfig → AppConfig → Type 0
FindSame a b =
    (id : String)
    → (find_source a id ≡ find_source b id)
      × (find_pipeline a id ≡ find_pipeline b id)
      × (find_task a id ≡ find_task b id)
      × (find_model a id ≡ find_model b id)

module _ {P : Type 0} where
  -- The constructor does not throw, and the new manager finds the same.
  abbrev pub Restarts : Option (TaskManager P) → AppConfig → Type 0
  Restarts none cfg = ⊥
  Restarts (some m) cfg = FindSame m.cfg cfg

  module _ (base : AppConfig) (first : RuntimeState) where
    edit_all-IsRecoverable :
        (m : TaskManager P) (es : List Edit)
        → All (IsNew base) es
        → IsRecoverable base first m
        → IsRecoverable base first (edit_all m es)
    unfolding edit_all
    edit_all-IsRecoverable m [] new r = r
    edit_all-IsRecoverable m (e ∷ es) new r =
        edit_all-IsRecoverable (edit m e) es new.1 (edit-IsRecoverable base first m e new.0 r)

    made-Restarts :
        (m : TaskManager P)
        → IsRecoverable base first m
        → Restarts (made base (some m.runtime_state)) m.cfg
    unfolding apply_runtime_state
    made-Restarts m r = λ id. (r.sources id, r.pipelines id, r.tasks id, r.models id)

module _ (J : Json) (laws : IsLawful J) (show : ℤ → String) (stoi : String → Option ℤ)
    (disk : ℕ → Disk) (config_path : String) (files : List (String × String)) where
  -- Every save of the state opens its file, renames it, and leaves a text that parses back to what was written.
  pub record IsKept (s : RuntimeState) : Type 0 where
    pub opens : (n : ℕ) → (disk n).opens ≡ true
    pub renames : (n : ℕ) → (disk n).renames ≡ true
    pub parses :
        (n : ℕ)
        → J.parse ((disk n).written (J.dump (state_to_json J show s)))
          ≡ some (state_to_json J show s)

  -- The file holds the state that was saved last.
  load-write_saves :
      (first : RuntimeState) (ss : List RuntimeState)
      → load_runtime_state J stoi files (runtime_state_path config_path) ≡ some first
      → IsKept (latest first ss)
      → IsRecorded J laws show stoi (latest first ss)
      → load_runtime_state J stoi
          (write_saves J show disk config_path ss files)
          (runtime_state_path config_path)
        ≡ some (latest first ss)
  unfolding write_saves
  load-write_saves first [] h k w = h
  load-write_saves first (s ∷ ss) h k w =
      load-saved J laws show stoi (disk (length ss)) s (runtime_state_path config_path) _
        (k.opens (length ss)) (k.renames (length ss)) (k.parses (length ss)) w

  module _ {P : Type 0} (base : AppConfig) (first : RuntimeState) where
    -- After any additions and removals of sources, pipelines and models and removals of tasks,
    -- whatever they return, a manager that is made from the base configuration and the file that
    -- the saves left finds under every identifier the source, the pipeline, the task and the model
    -- that were there before the restart, and its constructor does not throw; if the manager could
    -- be recovered so before the changes, every entry that they add has an identifier that the
    -- base configuration does not have, the file was readable at first, every save opens and
    -- renames its file and leaves a text that parses back, and the changes to be saved last are
    -- ones that JSON keeps (versions with a name, the default batch dimension, settings and paths
    -- that are maps).
    pub edit_all-FindSame :
        (m : TaskManager P) (es : List Edit)
        → load_runtime_state J stoi files (runtime_state_path config_path) ≡ some first
        → IsRecoverable base first m
        → All (IsNew base) es
        → IsKept (edit_all m es).runtime_state
        → IsRecorded J laws show stoi (edit_all m es).runtime_state
        → Restarts {P = P}
            (make J stoi
              (write_saves J show disk config_path (edit_all m es).saves files)
              config_path
              base)
            (edit_all m es).cfg
    unfolding make
    edit_all-FindSame m es h r new k w =
        let after = edit_all-IsRecoverable base first m es new r in
        let n = edit_all m es in
        rw (load-write_saves first n.saves h (rw (after.saved) k) (rw (after.saved) w), after.saved)
          (made-Restarts base first n after)
