-- ===== src/Server.antt =====
-- src/server/UnixSocketServer.cpp: the control socket, which turns a line of JSON into a call of the task
-- manager and its result into an answer.
--
-- A connection's thread calls `dispatch` for each line; what the socket does is not modelled.
pub mod Listings
pub mod Edits
pub mod Models
pub mod Dispatch
pub mod Meaning
pub mod Missing
pub mod Handling
pub mod Handled
pub mod Answers
mod Samples
use inference_server.Shared.{
  Bool, true, false, String, List, [], ◌∷◌, Option, none, some, str_eq, if◌then◌else◌,
}
use inference_server.Json.{Json}
use inference_server.TaskManager.{TaskManager, Reply, returns, throws}

-- What a command does: it sends a value, or an exception leaves it.
pub data Response (V : Type 0) : Type 0 where
  sends : V → Response V
  escapes : Response V

module _ (J : Json) where
  open J use {Value, text, object}

  abbrev pub ok : List (String × Value) → Value
  ok members = object (("status", text "ok") ∷ members)

  -- `{{"status", "ok"}, {"id", id}}`
  abbrev pub ok_id : String → Value
  ok_id id = ok (("id", text id) ∷ [])

  abbrev pub ok_data : Value → Value
  ok_data v = ok (("data", v) ∷ [])

  abbrev pub error : List (String × Value) → Value
  error members = object (("status", text "error") ∷ members)

  abbrev pub error_message : String → Value
  error_message message = error (("message", text message) ∷ [])

  abbrev pub error_code : String → String → Value
  error_code code message = error (("code", text code) ∷ ("message", text message) ∷ [])

  abbrev pub missing_id : Value
  missing_id = error_message "missing field: id"

module _ {V P : Type 0} where
  -- A value that was read; the exception leaves the manager as it is.
  abbrev pub with_read {ℓ} :
      {A : Type ℓ}
      → TaskManager P
      → Option A
      → (A → Response V × TaskManager P)
      → Response V × TaskManager P
  with_read m none f = (escapes, m)
  with_read m (some a) f = f a

  -- The answer to a call that returned.
  abbrev pub answer : V → V → Reply × TaskManager P → Response V × TaskManager P
  answer good bad (returns true, m) = (sends good, m)
  answer good bad (returns false, m) = (sends bad, m)
  answer good bad (throws, m) = (escapes, m)
