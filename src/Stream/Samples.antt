-- ===== src/Stream/Samples.antt =====
-- Runs of the models of src/stream.
use inference_server.Shared.{◌≡◌, refl, ℕ, ◌+◌, leb, List, [], ◌∷◌, some, lookup, insert, arith}
use inference_server.Shared.Int.{ℤ, pos}
use inference_server.Stream.Health.{
  Entry, Event, on_stream_added, on_stream_dropped, on_reconnect_failed, handle_all, handle,
  reconnecting, has_failed, max_attempts, change, added, default_health, dropped, reconnect_failed,
}
use inference_server.Stream.Health.Failure.{IsBelow, limit-holds, fail_all, give_up_lem, count}
use inference_server.Stream.Devices.{acquire, release, least, take_slot}
use inference_server.Stream.Devices.Balance.{IsBalanced, acquire-IsBalanced, acquire-release}

abbrev waiting : Entry ℕ
waiting = record {
  health = record {
    state = reconnecting;
    last_frame_ts = 0;
    state_changed_at = 7;
    reconnect_count = 0;
    consecutive_failures = 1;
  };
  degraded_threshold = pos 2;
  max_reconnect_attempts = pos 3;
  last_frame_ts_atomic = 0;
}

abbrev events : List (Event ℕ)
events =
    on_stream_added "cam" 5 (pos 2) (pos 3)
    ∷ on_stream_dropped "cam" 7
    ∷ on_reconnect_failed "cam" 8
    ∷ []

abbrev after_events : Entry ℕ
after_events = record waiting { health = record (waiting.health) { state_changed_at = 7 } }

found : lookup (handle_all 0 [] events) "cam" ≡ some after_events
unfolding lookup insert handle_all handle change added default_health dropped reconnect_failed
found = refl

limit-holds_example : IsBelow after_events
limit-holds_example = limit-holds 0 events "cam" after_events found

abbrev times : List ℕ
times = 9 ∷ 10 ∷ []

give_up_lem_example :
    has_failed (fail_all times waiting) ≡ leb (max_attempts waiting) (1 + count times)
give_up_lem_example = give_up_lem times waiting refl (omega arith) (omega arith)

abbrev devices : List (ℤ × ℕ)
devices = (pos 0, 2) ∷ (pos 1, 1) ∷ []

devices-IsBalanced : IsBalanced devices
devices-IsBalanced = (1, ((omega arith, omega arith), ((omega arith, omega arith), tt)))

acquire-IsBalanced_example : IsBalanced (acquire devices).1
acquire-IsBalanced_example = acquire-IsBalanced devices devices-IsBalanced

taken : (acquire devices).0 ≡ some (pos 1)
unfolding acquire least take_slot
taken = refl

acquire-release_example : release (acquire devices).1 (pos 1) ≡ devices
acquire-release_example = acquire-release devices (pos 1) (refl, (refl, tt)) taken
