-- ===== src/Runtime/EventHub/History.antt =====
-- A connection after any calls of the hub, against the log of all that was published.
use outright.Base.{
  ℕ, suc, ◌+◌, ◌-◌, ◌≤◌, ◌<◌, ◌≡◌, ◌↔◌, ◌⊎◌, refl, ap, ◌∙◌, inl, inr, Bool, true, false, ◌&&◌, ◌||◌,
  not, Option, List, [], ◌∷◌, ◌++◌, if◌then◌else◌, ltb, leb, nat_beq, arith, String, string_eq,
  ◌==◌, contains, length, max, filter-append, length-append, beq_refl, Bool-cases, leb→le,
}
use outright.Runtime.EventHub.{
  Event, is_unretained, Entry, Limits, Hub, new_hub, Frame, greeting, Attempt, Effect, sent, closed,
  to_frames, is_missed, frames_after, event_cursor, trim, retain, record_event, publish, connect,
  disconnect, send, send_until,
}
use outright.Runtime.EventHub.Delivery.{
  is_healthy, takes_all, send_clients, send_healthy, contains-add_client,
}
use outright.Runtime.EventHub.Replay.{
  above, logged, IsValid, new_hub-IsValid, renumber-IsValid, publish-IsValid,
}

-- Fewer or as many entries are held after every cursor as were published, and fewer after every
-- cursor below the floor.
abbrev pub IsTold : Hub → List Entry → Type 0
IsTold h log =
    (t : ℕ)
    → (length (above t h.replay) ≤ length (above t log))
      × ((h.replay_floor ≤ t) ⊎ (length (above t h.replay) < length (above t log)))

length-above-snoc :
    (t : ℕ) (xs : List Entry) (e : Entry)
    → length (above t (xs ++ e ∷ [])) ≡ length (above t xs) + (if ltb t e.event_id then 1 else 0)
length-above-snoc t xs e =
    ap length (filter-append (λ (d : Entry). ltb t d.event_id) xs (e ∷ []))
    ∙ ground (arith, length-append (above t xs) (above t (e ∷ [])))

module _ (limits : Limits) where
  trim_told :
      (xs : List Entry) (bytes floor t n : ℕ)
      → length (above t xs) ≤ n
      → (floor ≤ t) ⊎ (length (above t xs) < n)
      → (length (above t (trim limits xs bytes floor).0) ≤ n)
        × (((trim limits xs bytes floor).2 ≤ t)
            ⊎ (length (above t (trim limits xs bytes floor).0) < n))
  unfolding trim
  trim_told [] bytes floor t n few told = (few, told)
  trim_told (e ∷ xs) bytes floor t n few told =
      ground (arith, told, few, trim_told xs (bytes - e.bytes) (max floor e.event_id) t n)

  retain-IsTold :
      (h : Hub) (log : List Entry) (e : Entry)
      → IsTold h log
      → IsTold (retain limits h e) (log ++ e ∷ [])
  unfolding retain
  retain-IsTold h log e told t =
      let grown = length-above-snoc t log e in
      let extended = length-above-snoc t h.replay e in
      let rest =
        trim_told (h.replay ++ e ∷ []) (h.replay_bytes + e.bytes) h.replay_floor t
          (length (above t (log ++ e ∷ []))) (ground (arith, told t, grown, extended))
          (ground (arith, told t, grown, extended)) in
      elim (Bool-cases (ltb limits.max_replay_bytes e.bytes)) [
        | inl big ↦ rw (retain, big) (ground (arith, told t, grown))
        | inr fit ↦ rw (retain, fit) rest
      ]

  record_event-IsTold :
      (h : Hub) (log : List Entry) (event : Event) (size : ℕ)
      → IsTold h log
      → IsTold (record_event limits h event size).0 (logged h event size log)
  unfolding record_event logged
  record_event-IsTold h log event size told = elim (Bool-cases (is_unretained event.kind)) [
    | inl e ↦ rw e told
    | inr e ↦ rw e (retain-IsTold (record h { last_event_id = suc h.last_event_id }) log _ told)
  ]

  last_event_id-record_event :
      (h : Hub) (event : Event) (size : ℕ)
      → (record_event limits h event size).0.last_event_id ≡ suc h.last_event_id
  unfolding record_event retain
  last_event_id-record_event h event size = ground arith

-- The frames for a client, in order.
abbrev pub sent_to : String → List Effect → List Frame
sent_to c [] = []
sent_to c (sent d frame ∷ effects) = if d == c then frame ∷ sent_to c effects else sent_to c effects
sent_to c (closed d ∷ effects) = sent_to c effects

-- What a client is owed that connects with a cursor: the published events after it that may be
-- replayed, unless it is told that some are missing or asks for none, and then the greeting.
abbrev pub owed : Bool → ℕ → List Entry → List Frame
owed missed after log =
    (if missed || nat_beq after 0 then [] else to_frames (above after log)) ++ greeting ∷ []

pub data Call : Type 0 where
  published : Event → ℕ → Call
  connected : String → Option ℕ → Call
  disconnected : String → Call

abbrev pub published_count : List Call → ℕ
published_count [] = 0
published_count (published event size ∷ calls) = suc (published_count calls)
published_count (connected c requested ∷ calls) = published_count calls
published_count (disconnected c ∷ calls) = published_count calls

module _ (limits : Limits) (frame_bytes : Frame → ℕ) (socket : String → Frame → Attempt) where
  -- The frames up to the first that a client does not take.
  unfoldable pub taken_frames : String → List Frame → List Frame
  taken_frames c [] = []
  taken_frames c (frame ∷ frames) =
      let rest = taken_frames c frames in
      if is_healthy limits frame_bytes socket c frame then frame ∷ rest else []

  -- The calls of a hub, one after the other, with the log of all events that may be replayed.
  unfoldable pub history : Hub → List Entry → List Call → Hub × List Entry
  history h log [] = (h, log)
  history h log (published event size ∷ calls) =
      history (publish limits frame_bytes socket h event size).0 (logged h event size log) calls
  history h log (connected c requested ∷ calls) =
      history (connect limits frame_bytes socket h c requested).0 log calls
  history h log (disconnected c ∷ calls) = history (disconnect h c) log calls

  sent_to-send :
      (c : String) (frame : Frame) (clients : List String)
      → sent_to c (send limits frame_bytes socket c frame clients).2
        ≡ (if is_healthy limits frame_bytes socket c frame then frame ∷ [] else [])
  unfolding send is_healthy
  sent_to-send c frame clients = ground (arith, beq_refl c)

  send_until_lem :
      (c d : String) (frames : List Frame) (clients : List String)
      → let result = send_until limits frame_bytes socket c frames clients in
        let healthy = takes_all limits frame_bytes socket c frames in
        (result.0 ≡ healthy)
        × (contains result.1 d ≡ (contains clients d && (healthy || not (c == d))))
        × (sent_to c result.2 ≡ taken_frames c frames)
  unfolding send_until takes_all taken_frames
  send_until_lem c d [] clients = ground arith
  send_until_lem c d (frame ∷ frames) clients =
      elim (Bool-cases (is_healthy limits frame_bytes socket c frame)) [
        | inl healthy ↦
            rw (send_healthy limits frame_bytes socket c frame clients healthy, healthy)
              (ground (arith, beq_refl c, send_until_lem c d frames clients))
        | inr failed ↦ ground (
          arith,
          failed,
          send_clients limits frame_bytes socket c frame clients d,
          sent_to-send c frame clients,
        )
      ]

  publish-IsTold :
      (h : Hub) (log : List Entry) (event : Event) (size : ℕ)
      → IsTold h log
      → IsTold (publish limits frame_bytes socket h event size).0 (logged h event size log)
  unfolding publish
  publish-IsTold h log event size told = record_event-IsTold limits h log event size told

  last_event_id-publish :
      (h : Hub) (event : Event) (size : ℕ)
      → (publish limits frame_bytes socket h event size).0.last_event_id ≡ suc h.last_event_id
  unfolding publish
  last_event_id-publish h event size = last_event_id-record_event limits h event size

  connect-IsValid :
      (h : Hub) (log : List Entry) (c : String) (requested : Option ℕ)
      → IsValid limits h log
      → IsValid limits (connect limits frame_bytes socket h c requested).0 log
  unfolding connect
  connect-IsValid h log c requested valid =
      renumber-IsValid limits h log (connect limits frame_bytes socket h c requested).0.clients
        h.last_event_id valid

  connect-IsTold :
      (h : Hub) (log : List Entry) (c : String) (requested : Option ℕ)
      → IsTold h log
      → IsTold (connect limits frame_bytes socket h c requested).0 log
  unfolding connect
  connect-IsTold h log c requested told = told

  last_event_id-connect :
      (h : Hub) (c : String) (requested : Option ℕ)
      → (connect limits frame_bytes socket h c requested).0.last_event_id ≡ h.last_event_id
  unfolding connect
  last_event_id-connect h c requested = refl

  history_lem :
      (h : Hub) (log : List Entry) (calls : List Call)
      → IsValid limits h log
      → IsTold h log
      → let run = history h log calls in
        IsValid limits run.0 run.1
        × IsTold run.0 run.1
        × (run.0.last_event_id ≡ h.last_event_id + published_count calls)
  unfolding history
  history_lem h log [] valid told = (valid, told, omega arith)
  history_lem h log (published event size ∷ calls) valid told =
      let (kept, still, count) =
        history_lem (publish limits frame_bytes socket h event size).0 (logged h event size log)
          calls (publish-IsValid limits frame_bytes socket h log event size valid)
          (publish-IsTold h log event size told) in
      (kept, still, omega (arith, count, last_event_id-publish h event size))
  history_lem h log (connected c requested ∷ calls) valid told =
      let (kept, still, count) =
        history_lem (connect limits frame_bytes socket h c requested).0 log calls
          (connect-IsValid h log c requested valid) (connect-IsTold h log c requested told) in
      (kept, still, omega (arith, count, last_event_id-connect h c requested))
  history_lem h log (disconnected c ∷ calls) valid told =
      history_lem (disconnect h c) log calls
        (renumber-IsValid limits h log (disconnect h c).clients h.last_event_id valid) told

  -- The frames of a connection are those that the log owes.
  replayed_lem :
      (h : Hub) (log : List Entry) (after : ℕ)
      → IsValid limits h log
      → (if ltb 0 after && not (is_missed h after) then frames_after h after else [])
          ++ greeting ∷ []
        ≡ owed (is_missed h after) after log
  replayed_lem h log after valid = elim (Bool-cases (ltb 0 after && not (is_missed h after))) [
    | inl told ↦
        let quiet : (is_missed h after || nat_beq after 0) ≡ false = ground (arith, told) in
        let all : frames_after h after ≡ to_frames (above after log) =
          ap to_frames (valid.complete after (ground (arith, told))) in
        rw (told, quiet, all) refl
    | inr untold ↦
        let noisy : (is_missed h after || nat_beq after 0) ≡ true = ground (arith, untold) in
        rw (untold, noisy) refl
  ]

  new_hub-IsTold : IsTold new_hub []
  unfolding new_hub
  new_hub-IsTold t = omega arith

  fresh_lem : new_hub.last_event_id ≡ 0
  unfolding new_hub
  fresh_lem = refl

  -- The answer says that events are missing exactly where the cursor is past the last event or an
  -- event after the cursor is gone.
  missed_lem :
      (h : Hub) (log : List Entry) (after count : ℕ)
      → IsValid limits h log
      → IsTold h log
      → h.last_event_id ≡ count
      → (is_missed h after ≡ true) ↔ (
          (count < after)
          ⊎ ((0 < after) × (length (above after h.replay) < length (above after log))))
  missed_lem h log after count valid told counted = elim (Bool-cases (leb h.replay_floor after)) [
    | inl low ↦
        ground
          (arith, counted, ap length (valid.complete after (leb→le h.replay_floor after low)), low)
    | inr high ↦ ground (arith, counted, told after, high)
  ]

  -- After any calls of a hub, a client that connects is sent, in order and up to the first frame that
  -- it does not take, every published event after its cursor that may be replayed and then the
  -- greeting; or the greeting alone, where it is told that events are missing or its cursor is zero.
  -- It is connected from then on exactly if it takes all of this, and other clients stay as they
  -- were. It is told that events are missing exactly where its cursor is past the last event, or is
  -- above zero and an event after it that may be replayed is no longer held.
  pub connect-history :
      (calls : List Call) (c d : String) (requested : Option ℕ)
      → let (h, log) = history new_hub [] calls in
        let (next, missed, effects) = connect limits frame_bytes socket h c requested in
        let after = event_cursor requested in
        let frames = owed missed after log in
        (sent_to c effects ≡ taken_frames c frames)
        × (contains next.clients d ≡ (
            if c == d then takes_all limits frame_bytes socket c frames else contains h.clients d))
        × ((missed ≡ true) ↔ (
            (published_count calls < after)
            ⊎ ((0 < after) × (length (above after h.replay) < length (above after log)))))
  unfolding connect
  connect-history calls c d requested =
      let h = (history new_hub [] calls).0 in
      let log = (history new_hub [] calls).1 in
      let after = event_cursor requested in
      let frames = owed (is_missed h after) after log in
      let (valid, told, count) =
        history_lem new_hub [] calls (new_hub-IsValid limits) new_hub-IsTold in
      let (healthy, clients, taken) = send_until_lem c d frames h.clients in
      let kept = (send_until limits frame_bytes socket c frames h.clients).1 in
      let counted : h.last_event_id ≡ published_count calls = omega (arith, count, fresh_lem) in
      rw (replayed_lem h log after valid) (
        taken,
        ground (arith, healthy, clients, contains-add_client c d kept, string_eq.same_iff c d),
        missed_lem h log after (published_count calls) valid told counted,
      )
