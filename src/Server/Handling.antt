-- ===== src/Server/Handling.antt =====
-- What `UnixSocketServer::dispatch` of src/server/UnixSocketServer.cpp does to the manager and what its
-- answers mean, against the requests of src/pipeline/TaskManager.cpp.
use Prim.Native.String.{◌++◌ as concat}
use inference_server.Shared.{
  ◌≡◌, refl, Bool, true, false, not, String, List, [], ◌∷◌, Option, some, none, if◌then◌else◌,
  str_eq, any, lookup,
}
use inference_server.Json.{Json, IsLawful}
use inference_server.Json.Readers.{value_text, value_elements}
use inference_server.TaskManager.{TaskManager, Reply, returns, throws}
use inference_server.TaskManager.Requests.{
  Request, serve, start_task, stop_task, drop_source, drop_pipeline, put_source, put_pipeline,
}
use inference_server.Server.{
  Response, sends, escapes, ok, ok_id, error, error_code, with_read, answer,
}
use inference_server.Server.Edits.{
  read_source, read_pipeline, read_edge, with_id, start_command, stop_command, add_source_command,
  remove_source_command, add_pipeline_command, remove_pipeline_command,
}
use inference_server.TaskManager.Listing.{list_sources, list_pipelines}
use inference_server.Server.Dispatch.{Services}
use inference_server.Shared.Options.{◌>>=◌, traverse}
use inference_server.Config.{PipelineConfig}
use inference_server.RuntimeState.Reading.{stage_from_json}
use inference_server.Server.Meaning.{
  Meaning, unreadable, refused, lists, asks, meaning_with, named, identified,
}
use inference_server.Server.Missing.{remove_source-missing, remove_pipeline-missing}

module _ (J : Json) where
  abbrev status_of : Option (J.Value) → Option String
  status_of none = none
  status_of (some v) = J.as_text v

  abbrev says_ok : Option String → Bool
  says_ok none = false
  says_ok (some s) = str_eq s "ok"

  -- The answer's status, as a client reads it.
  unfoldable pub is_ok : J.Value → Bool
  is_ok v = says_ok (status_of (J.find v "status"))

  pub is_ok-ok : IsLawful J → (members : List (String × J.Value)) → is_ok (ok J members) ≡ true
  unfolding is_ok lookup
  is_ok-ok laws members =
      rw (laws.find_object (("status", J.text "ok") ∷ members) "status", laws.as_text_text "ok")
        refl

  pub is_ok-error :
      IsLawful J → (members : List (String × J.Value)) → is_ok (error J members) ≡ false
  unfolding is_ok lookup
  is_ok-error laws members =
      rw
        (
          laws.find_object (("status", J.text "error") ∷ members) "status",
          laws.as_text_text "error",
        )
        refl

-- What holds of the value, if there is one.
abbrev pub OfSome {ℓ} : {A : Type ℓ} → (A → Type 0) → Option A → Type 0
OfSome Q none = Unit
OfSome Q (some a) = Q a

bind-OfSome {ℓ ℓ'} :
    {A : Type ℓ} {B : Type ℓ'} (Q : B → Type 0) (o : Option A) (f : A → Option B)
    → ((a : A) → OfSome Q (f a))
    → OfSome Q (o >>= f)
bind-OfSome Q none f h = tt
bind-OfSome Q (some a) f h = h a

-- The pipeline that is read has the identifier that it was read with.
pub read_pipeline-id :
    (J : Json) (req : J.Value) (id : String)
    → OfSome (λ (p : PipelineConfig). p.id ≡ id) (read_pipeline J req id)
unfolding read_pipeline
read_pipeline-id J req id = bind-OfSome _ (value_elements J req "nodes") _ (λ ns.
    bind-OfSome _ (traverse (stage_from_json J) ns) _ (λ nodes.
      bind-OfSome _ (value_elements J req "edges") _
        (λ es. bind-OfSome _ (traverse (read_edge J) es) _ (λ edges. refl))))

module _ (J : Json) {T : Type 0} (s : Services T) {P : Type 0} (m : TaskManager P) where
  -- What may become of a line with this meaning: its answer or its exception, and the manager after it.
  pub data Handles : Meaning (J.Value) P → Response (J.Value) × TaskManager P → Type 0 where
    aborts : Handles unreadable (escapes, m)
    refuses : (v : J.Value) → is_ok J v ≡ false → Handles refused (sends v, m)
    reports : (f : TaskManager P → J.Value) → Handles (lists f) (sends (f m), m)
    serves :
        (r : Request) (b : Bool) (n : TaskManager P) (v : J.Value)
        → serve s.create s.fails s.repo m r ≡ (returns b, n)
        → is_ok J v ≡ b
        → Handles (asks r) (sends v, n)
    breaks :
        (r : Request) (n : TaskManager P)
        → serve s.create s.fails s.repo m r ≡ (throws, n)
        → Handles (asks r) (escapes, n)

  pub with_read-Handles {ℓ} :
      {A : Type ℓ} (o : Option A) (g : A → Meaning (J.Value) P)
      (f : A → Response (J.Value) × TaskManager P)
      → ((a : A) → Handles (g a) (f a))
      → Handles (meaning_with J s o g) (with_read m o f)
  with_read-Handles none g f h = aborts
  with_read-Handles (some a) g f h = h a

  pub with_known-Handles {ℓ} :
      {A : Type ℓ} (Q : A → Type 0) (o : Option A) (g : A → Meaning (J.Value) P)
      (f : A → Response (J.Value) × TaskManager P)
      → OfSome Q o
      → ((a : A) → Q a → Handles (g a) (f a))
      → Handles (meaning_with J s o g) (with_read m o f)
  with_known-Handles Q none g f q h = aborts
  with_known-Handles Q (some a) g f q h = h a q

  pub if-Handles :
      (b : Bool) (x y : Meaning (J.Value) P) (u v : Response (J.Value) × TaskManager P)
      → Handles x u
      → Handles y v
      → Handles (if b then x else y) (if b then u else v)
  if-Handles true x y u v h k = h
  if-Handles false x y u v h k = k

  -- A refusal before a call that would return false and change nothing.
  pub missing-Handles :
      (b : Bool) (r : Request) (v : J.Value) (u : Response (J.Value) × TaskManager P)
      → (b ≡ true → serve s.create s.fails s.repo m r ≡ (returns false, m))
      → is_ok J v ≡ false
      → Handles (asks r) u
      → Handles (asks r) (if b then (sends v, m) else u)
  missing-Handles true r v u same bad h = serves r false m v (same refl) bad
  missing-Handles false r v u same bad h = h

  module _ (laws : IsLawful J) where
    pub refuse : (members : List (String × J.Value)) → Handles refused (sends (error J members), m)
    refuse members = refuses _ (is_ok-error J laws members)

    -- The answer to a request.
    pub answer-Handles :
        (r : Request) (good bad : List (String × J.Value)) (result : Reply × TaskManager P)
        → serve s.create s.fails s.repo m r ≡ result
        → Handles (asks r) (answer (ok J good) (error J bad) result)
    answer-Handles r good bad (returns true, n) e = serves r true n _ e (is_ok-ok J laws good)
    answer-Handles r good bad (returns false, n) e = serves r false n _ e (is_ok-error J laws bad)
    answer-Handles r good bad (throws, n) e = breaks r n e

    pub with_id-Handles :
        (req : J.Value) (g : String → Meaning (J.Value) P)
        (f : String → Response (J.Value) × TaskManager P)
        → ((id : String) → Handles (g id) (f id))
        → Handles (identified J s (λ req. g) req) (with_id J m req f)
    with_id-Handles req g f h = with_read-Handles (value_text J req "id" "") _ _ (λ id.
        if-Handles (str_eq id "") _ _ _ (f id)
          (refuse (("message", J.text "missing field: id") ∷ [])) (h id))

    -- The commands that remove an entry look for it first.
    pub removal-Handles :
        (req : J.Value) (missing : String → Bool) (code message : String) (r : String → Request)
        → ((id : String)
            → missing id ≡ true
            → serve s.create s.fails s.repo m (r id) ≡ (returns false, m))
        → Handles (named J s r req) (
            with_read m (value_text J req "id" "") (λ id.
              if missing id
              then (sends (error_code J "not_found" (concat "not found: " id)), m)
              else answer
                  (ok_id J id)
                  (error_code J code (concat message id))
                  (serve s.create s.fails s.repo m (r id))))
    removal-Handles req missing code message r same =
        with_read-Handles (value_text J req "id" "") _ _ (λ id.
          missing-Handles (missing id) (r id) _ _ (same id) (is_ok-error J laws _) (
            answer-Handles (r id) (("id", J.text id) ∷ [])
              (("code", J.text code) ∷ ("message", J.text (concat message id)) ∷ []) _ refl))

    pub start_command-Handles :
        (req : J.Value)
        → Handles (named J s (λ id. start_task id) req) (start_command J s.create s.fails m req)
    unfolding start_command serve
    start_command-Handles req =
        with_read-Handles _ _ _ (λ id. answer-Handles (start_task id) _ _ _ refl)

    pub stop_command-Handles :
        (req : J.Value) → Handles (named J s (λ id. stop_task id) req) (stop_command J m req)
    unfolding stop_command serve
    stop_command-Handles req =
        with_read-Handles _ _ _ (λ id. answer-Handles (stop_task id) _ _ _ refl)

    pub add_source_command-Handles :
        (req : J.Value)
        → Handles
            (identified J s
              (λ req id. meaning_with J s (read_source J req id) (λ src. asks (put_source src)))
              req)
            (add_source_command J m req)
    unfolding add_source_command serve
    add_source_command-Handles req =
        with_id-Handles req _ _
          (λ id. with_read-Handles _ _ _ (λ src. answer-Handles (put_source src) _ _ _ refl))

    pub remove_source_command-Handles :
        (req : J.Value)
        → Handles (named J s (λ id. drop_source id) req) (remove_source_command J s.health m req)
    unfolding remove_source_command serve
    remove_source_command-Handles req =
        removal-Handles req (λ id. not (any (λ x. str_eq x.id id) (list_sources s.health m)))
          "in_use" "source in use by a task: " (λ id. drop_source id)
          (λ id. remove_source-missing m id s.health)

    pub add_pipeline_command-Handles :
        (req : J.Value)
        → Handles
            (identified J s
              (λ req id. meaning_with J s (read_pipeline J req id) (λ p. asks (put_pipeline p)))
              req)
            (add_pipeline_command J m req)
    unfolding add_pipeline_command serve
    add_pipeline_command-Handles req =
        with_id-Handles req _ _
          (λ id. with_read-Handles _ _ _ (λ p. answer-Handles (put_pipeline p) _ _ _ refl))

    pub remove_pipeline_command-Handles :
        (req : J.Value)
        → Handles (named J s (λ id. drop_pipeline id) req) (remove_pipeline_command J m req)
    unfolding remove_pipeline_command serve
    remove_pipeline_command-Handles req =
        removal-Handles req (λ id. not (any (λ x. str_eq x.id id) (list_pipelines m))) "in_use"
          "pipeline in use by a task: " (λ id. drop_pipeline id)
          (λ id. remove_pipeline-missing m id)
