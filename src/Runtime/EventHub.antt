-- ===== src/Runtime/EventHub.antt =====
-- server/runtime-events.mjs: the hub that numbers the runtime's events, keeps a bounded replay of
-- them, and sends them to the connected clients. The bytes of an encoded record and the sockets are
-- the platform's: they are parameters.
pub mod Replay
pub mod Delivery
pub mod History
pub mod Tests
use outright.Base.{
  ℕ, suc, ◌+◌, ◌-◌, Bool, true, false, ◌&&◌, ◌||◌, not, Option, none, some, List, [], ◌∷◌, ◌++◌,
  if◌then◌else◌, ltb, leb, String, string_eq, ◌==◌, length, max, filter,
}

pub record Event : Type 0 where
  pub kind : String
  pub payload : String

-- UNRETAINED_EVENTS
unfoldable pub is_unretained : String → Bool
is_unretained kind = kind == "terminal.output" || kind == "worktree.lifecycle.output"

-- A record of the replay, with the bytes of its encoding.
pub record Entry : Type 0 where
  pub event_id : ℕ
  pub event : Event
  pub bytes : ℕ

pub record Limits : Type 0 where
  pub max_events : ℕ
  pub max_replay_bytes : ℕ
  pub max_client_buffer : ℕ

pub record Hub : Type 0 where
  pub clients : List String
  pub replay : List Entry
  pub replay_bytes : ℕ
  pub replay_floor : ℕ
  pub last_event_id : ℕ

unfoldable pub new_hub : Hub
new_hub = record {
  clients = [];
  replay = [];
  replay_bytes = 0;
  replay_floor = 0;
  last_event_id = 0;
}

-- What is sent: an event, or the greeting of a new connection.
pub data Frame : Type 0 where
  event_frame : Entry → Frame
  greeting : Frame

abbrev pub to_frames : List Entry → List Frame
to_frames [] = []
to_frames (e ∷ rest) = event_frame e ∷ to_frames rest

-- A socket when a frame is about to be sent: whether it is open, the bytes that it has buffered,
-- and whether its `send` returns.
pub record Attempt : Type 0 where
  pub is_open : Bool
  pub buffered : ℕ
  pub returns : Bool

pub data Effect : Type 0 where
  sent : String → Frame → Effect
  closed : String → Effect

unfoldable pub delete_client : String → List String → List String
delete_client c [] = []
delete_client c (d ∷ rest) = if d == c then delete_client c rest else d ∷ delete_client c rest

unfoldable pub add_client : String → List String → List String
add_client c [] = c ∷ []
add_client c (d ∷ rest) = if d == c then d ∷ rest else d ∷ add_client c rest

-- `Number(value)` of a cursor, or 0 where it is not a whole number from 0 on.
abbrev pub event_cursor : Option ℕ → ℕ
event_cursor none = 0
event_cursor (some n) = n

abbrev pub is_missed : Hub → ℕ → Bool
is_missed h after = ltb h.last_event_id after || (ltb 0 after && ltb after h.replay_floor)

abbrev pub frames_after : Hub → ℕ → List Frame
frames_after h after = to_frames (filter (λ e. ltb after e.event_id) h.replay)

module _ (limits : Limits) where
  -- The loop of `retain`.
  unfoldable pub trim : List Entry → ℕ → ℕ → List Entry × ℕ × ℕ
  trim [] bytes floor = ([], bytes, floor)
  trim (e ∷ rest) bytes floor =
      let shorter = trim rest (bytes - e.bytes) (max floor e.event_id) in
      if ltb limits.max_events (length (e ∷ rest)) || ltb limits.max_replay_bytes bytes
      then shorter
      else (e ∷ rest, bytes, floor)

  unfoldable pub retain : Hub → Entry → Hub
  retain h e =
      let (kept, bytes, floor) =
        trim (h.replay ++ e ∷ []) (h.replay_bytes + e.bytes) h.replay_floor in
      if ltb limits.max_replay_bytes e.bytes
      then record h { replay_floor = max h.replay_floor e.event_id }
      else record h { replay = kept; replay_bytes = bytes; replay_floor = floor }

  -- The part of `publish` before the clients are served. `size` is the bytes of the record.
  unfoldable pub record_event : Hub → Event → ℕ → Hub × Entry
  record_event h event size =
      let entry : Entry = record { event_id = suc h.last_event_id; event = event; bytes = size } in
      let numbered = record h { last_event_id = suc h.last_event_id } in
      (if is_unretained event.kind then numbered else retain numbered entry, entry)

module _ (limits : Limits) (frame_bytes : Frame → ℕ) (socket : String → Frame → Attempt) where
  -- `send`: whether the client is healthy, the clients left, and what was done.
  unfoldable pub send : String → Frame → List String → Bool × List String × List Effect
  send c frame clients =
      let attempt = socket c frame in
      if not attempt.is_open
      then (false, delete_client c clients, [])
      else if ltb limits.max_client_buffer (attempt.buffered + frame_bytes frame)
      then (false, delete_client c clients, closed c ∷ [])
      else if attempt.returns
      then (true, clients, sent c frame ∷ [])
      else (false, delete_client c clients, closed c ∷ [])

  unfoldable pub send_all : List String → Frame → List String → List String × List Effect
  send_all [] frame clients = (clients, [])
  send_all (c ∷ rest) frame clients =
      let (healthy, kept, done) = send c frame clients in
      let (final, more) = send_all rest frame kept in (final, done ++ more)

  unfoldable pub publish : Hub → Event → ℕ → Hub × List Effect
  publish h event size =
      let (recorded, entry) = record_event limits h event size in
      let (kept, done) = send_all recorded.clients (event_frame entry) recorded.clients in
      (record recorded { clients = kept }, done)

  -- Frames in order, up to the first that does not go out.
  unfoldable pub send_until : String → List Frame → List String → Bool × List String × List Effect
  send_until c [] clients = (true, clients, [])
  send_until c (frame ∷ rest) clients =
      let (healthy, kept, done) = send c frame clients in
      let (final_healthy, final, more) = send_until c rest kept in
      if healthy then (final_healthy, final, done ++ more) else (false, kept, done)

  -- `connect`, with the answer's `missed`.
  unfoldable pub connect : Hub → String → Option ℕ → Hub × Bool × List Effect
  connect h c requested =
      let after = event_cursor requested in
      let missed = is_missed h after in
      let replayed = if ltb 0 after && not missed then frames_after h after else [] in
      let (healthy, kept, done) = send_until c (replayed ++ greeting ∷ []) h.clients in
      (record h { clients = if healthy then add_client c kept else kept }, missed, done)

abbrev pub disconnect : Hub → String → Hub
disconnect h c = record h { clients = delete_client c h.clients }
