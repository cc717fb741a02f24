-- ===== src/Stream/Health.antt =====
-- src/stream/StreamHealthRegistry.cpp and include/stream/StreamHealthRegistry.h: the state of each
-- stream, which the decoder's callbacks move.
--
-- A type `T` with a zero stands for the times, which are `double`s; the clock's value is an argument of
-- the handlers that read it. The counters are 32 bits wide.
pub mod Failure
use inference_server.Shared.{
  ◌≡◌, refl, Bool, true, false, ◌&&◌, ◌||◌, not, ℕ, suc, ◌+◌, ◌-◌, ◌%◌, ◌^◌, ◌<◌, ◌≤◌, ltb, leb,
  ◌==◌, String, List, [], ◌∷◌, Option, none, some, if◌then◌else◌, lookup, insert, arith, Bool-cases,
  inl, inr,
}
use inference_server.Shared.Int.{ℤ, pos, negsuc}

pub data StreamState : Type 0 where
  connecting streaming reconnecting degraded failed stopped : StreamState

-- The numbers of the enumerators.
abbrev pub number : StreamState → ℕ
number connecting = 0
number streaming = 1
number reconnecting = 2
number degraded = 3
number failed = 4
number stopped = 5

abbrev pub is_state : StreamState → StreamState → Bool
is_state s t = number s == number t

pub record StreamHealth (T : Type 0) : Type 0 where
  pub state : StreamState
  pub last_frame_ts : T
  pub state_changed_at : T
  pub reconnect_count : ℕ
  pub consecutive_failures : ℕ

pub record Entry (T : Type 0) : Type 0 where
  pub health : StreamHealth T
  pub degraded_threshold : ℤ
  pub max_reconnect_attempts : ℤ
  pub last_frame_ts_atomic : T

-- `static_cast<uint32_t>`
abbrev pub to_word : ℤ → ℕ
to_word (pos n) = n % 2 ^ 32
to_word (negsuc n) = (2 ^ 32 - suc n % 2 ^ 32) % 2 ^ 32

-- `std::max(0, n)`
abbrev pub at_least_zero : ℤ → ℤ
at_least_zero (pos n) = pos n
at_least_zero (negsuc n) = pos 0

module _ {T : Type 0} where
  abbrev pub max_attempts : Entry T → ℕ
  max_attempts e = to_word (at_least_zero e.max_reconnect_attempts)

  abbrev pub enter : StreamState → T → Entry T → Entry T
  enter s now e = record e { health = record (e.health) { state = s; state_changed_at = now } }

  abbrev pub has_failed : Entry T → Bool
  has_failed e = is_state e.health.state failed

  module _ (zero_time : T) where
    unfoldable pub default_health : StreamHealth T
    default_health = record {
      state = connecting;
      last_frame_ts = zero_time;
      state_changed_at = zero_time;
      reconnect_count = 0;
      consecutive_failures = 0;
    }

    unfoldable pub added : T → ℤ → ℤ → Entry T
    unfolding default_health
    added now degraded_threshold max_reconnect_attempts = record {
      health = record default_health { state = connecting; state_changed_at = now };
      degraded_threshold = degraded_threshold;
      max_reconnect_attempts = max_reconnect_attempts;
      last_frame_ts_atomic = zero_time;
    }

  -- The handlers on the entry that is found.
  unfoldable pub opened : T → Entry T → Entry T
  opened now e = if is_state e.health.state connecting then enter streaming now e else e

  unfoldable pub dropped : T → Entry T → Entry T
  dropped now e =
      if is_state e.health.state streaming || is_state e.health.state connecting
      then enter reconnecting now e
      else e

  -- `++h.consecutive_failures`
  abbrev pub count_failure : Entry T → Entry T
  count_failure e = record e {
    health = record (e.health) {
      consecutive_failures = (e.health.consecutive_failures + 1) % 2 ^ 32;
    };
  }

  -- The end of `onReconnectFailed`, with the failure counted.
  abbrev pub judge : T → Entry T → Entry T
  judge now e =
      if ltb 0 (max_attempts e) && leb (max_attempts e) e.health.consecutive_failures
      then enter failed now e
      else if leb (to_word e.degraded_threshold) e.health.consecutive_failures
          && not (is_state e.health.state degraded)
      then enter degraded now e
      else e

  unfoldable pub reconnect_failed : T → Entry T → Entry T
  reconnect_failed now e = if has_failed e then e else judge now (count_failure e)

  unfoldable pub reconnect_succeeded : T → Entry T → Entry T
  reconnect_succeeded now e = if has_failed e then e else record e {
    health = record (e.health) {
      state = streaming;
      state_changed_at = now;
      consecutive_failures = 0;
      reconnect_count = (e.health.reconnect_count + 1) % 2 ^ 32;
    };
  }

  unfoldable pub frame_decoded : T → Entry T → Entry T
  frame_decoded capture_ts e = record e { last_frame_ts_atomic = capture_ts }

  unfoldable pub removed : T → Entry T → Entry T
  removed now e = if has_failed e then e else enter stopped now e

-- The calls of the decoder and of the stream pool.
pub data Event (T : Type 0) : Type 0 where
  on_stream_added : String → T → ℤ → ℤ → Event T
  on_stream_opened on_stream_dropped on_reconnect_failed : String → T → Event T
  on_reconnect_succeeded on_frame_decoded on_stream_removed : String → T → Event T

module _ {T : Type 0} where
  abbrev pub change_found :
      (Entry T → Entry T)
      → List (String × Entry T)
      → String
      → Option (Entry T)
      → List (String × Entry T)
  change_found f m id none = m
  change_found f m id (some e) = insert m id (f e)

  -- `auto it = map_.find(id); if (it == map_.end()) return; …`
  unfoldable pub change :
      (Entry T → Entry T) → List (String × Entry T) → String → List (String × Entry T)
  change f m id = change_found f m id (lookup m id)

  module _ (zero_time : T) where
    unfoldable pub handle : List (String × Entry T) → Event T → List (String × Entry T)
    handle m (on_stream_added id now threshold attempts) =
        insert m id (added zero_time now threshold attempts)
    handle m (on_stream_opened id now) = change (opened now) m id
    handle m (on_stream_dropped id now) = change (dropped now) m id
    handle m (on_reconnect_failed id now) = change (reconnect_failed now) m id
    handle m (on_reconnect_succeeded id now) = change (reconnect_succeeded now) m id
    handle m (on_frame_decoded id ts) = change (frame_decoded ts) m id
    handle m (on_stream_removed id now) = change (removed now) m id

    unfoldable pub handle_all : List (String × Entry T) → List (Event T) → List (String × Entry T)
    handle_all m [] = m
    handle_all m (e ∷ es) = handle_all (handle m e) es

    abbrev snapshot : Option (Entry T) → StreamHealth T
    snapshot none = record (default_health zero_time) { state = stopped }
    snapshot (some e) = record (e.health) { last_frame_ts = e.last_frame_ts_atomic }

    unfoldable pub get_health : List (String × Entry T) → String → StreamHealth T
    unfolding default_health
    get_health m id = snapshot (lookup m id)

    pub get_all_health : List (String × Entry T) → List (String × StreamHealth T)
    get_all_health [] = []
    get_all_health ((id, e) ∷ m) = (id, snapshot (some e)) ∷ get_all_health m
