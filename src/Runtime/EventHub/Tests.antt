-- ===== src/Runtime/EventHub/Tests.antt =====
-- Runs of the event hub, and the theorems about it at concrete events.
use outright.Base.{
  ℕ, ◌≡◌, ◌<◌, ◌↔◌, ◌⊎◌, none, ◌≤◌, refl, true, false, some, List, [], ◌∷◌, String, string_eq, ◌==◌,
  arith, contains, length,
}
use outright.Runtime.EventHub.{
  event_frame, greeting, send, send_until, delete_client, add_client, Event, is_unretained, Limits,
  Hub, new_hub, Frame, Attempt, to_frames, frames_after, trim, retain, record_event, send_all,
  publish, connect,
}
use outright.Runtime.EventHub.Replay.{
  total, above, logged, publish_all, publish_all_bounds, frames_after-publish_all,
}
use outright.Runtime.EventHub.Delivery.{is_healthy, takes_all, contains-publish}
use outright.Runtime.EventHub.History.{
  Call, published, connected, history, owed, sent_to, taken_frames, connect-history,
}

abbrev two : Limits
two = record { max_events = 2; max_replay_bytes = 100; max_client_buffer = 50 }

abbrev ten_bytes : Frame → ℕ
ten_bytes frame = 10

-- Only the client "slow" has no room.
abbrev sockets : String → Frame → Attempt
sockets c frame = record {
  is_open = true;
  buffered = elim (c == "slow") [ true ↦ 45 | false ↦ 0 ];
  returns = true;
}

abbrev update : Event
update = record { kind = "run.event"; payload = "{}" }

abbrev output : Event
output = record { kind = "terminal.output"; payload = "{}" }

abbrev feed : List (Event × ℕ)
feed = (update, 10) ∷ (output, 10) ∷ (update, 10) ∷ (update, 10) ∷ []

abbrev fed : Hub
fed = (publish_all two ten_bytes sockets new_hub [] feed).0

fed_lem : fed ≡ record {
  clients = [];
  replay =
      record { event_id = 3; event = update; bytes = 10 }
      ∷ record { event_id = 4; event = update; bytes = 10 }
      ∷ [];
  replay_bytes = 20;
  replay_floor = 1;
  last_event_id = 4;
}
unfolding publish_all publish record_event retain trim is_unretained send_all new_hub logged
fed_lem = refl

publish_all_bounds_example : (length fed.replay ≤ 2) × (total fed.replay ≤ 100)
publish_all_bounds_example = publish_all_bounds two ten_bytes sockets feed

frames_after-publish_all_example :
    frames_after fed 3 ≡ to_frames (above 3 (publish_all two ten_bytes sockets new_hub [] feed).1)
frames_after-publish_all_example =
    frames_after-publish_all two ten_bytes sockets feed 3 (omega arith) (rw fed_lem)

abbrev crowd : Hub
crowd = record {
  clients = "a" ∷ "slow" ∷ [];
  replay = record { event_id = 3; event = update; bytes = 10 } ∷ [];
  replay_bytes = 10;
  replay_floor = 1;
  last_event_id = 3;
}

contains-publish_example :
    contains (publish two ten_bytes sockets crowd update 10).0.clients "slow" ≡ false
unfolding is_healthy
contains-publish_example = contains-publish two ten_bytes sockets crowd update 10 "slow"

-- The client "slow" joins, four events follow, and the first is evicted.
abbrev past : List Call
past =
    connected "slow" none
    ∷ published update 10
    ∷ published output 10
    ∷ published update 10
    ∷ published update 10
    ∷ []

connect-history_example :
    let (h, log) = history two ten_bytes sockets new_hub [] past in
    let (next, missed, effects) = connect two ten_bytes sockets h "b" (some 3) in
    let frames = owed missed 3 log in
    (sent_to "b" effects ≡ taken_frames two ten_bytes sockets "b" frames)
    × (contains next.clients "b" ≡ takes_all two ten_bytes sockets "b" frames)
    × ((missed ≡ true) ↔ ((4 < 3) ⊎ ((0 < 3) × (length (above 3 h.replay) < length (above 3 log)))))
connect-history_example = connect-history two ten_bytes sockets past "b" "b" (some 3)

owed_run :
    owed false 3 (history two ten_bytes sockets new_hub [] past).1
    ≡ event_frame (record { event_id = 4; event = update; bytes = 10 }) ∷ greeting ∷ []
unfolding history publish connect send_until send delete_client add_client record_event retain trim
    is_unretained send_all new_hub logged
owed_run = refl
