-- ===== src/Runtime/EventHub/Replay.antt =====
-- The replay keeps within its limits, and is complete above its floor.
use outright.Base.{
  ℕ, suc, ◌+◌, ◌-◌, ◌≤◌, ◌<◌, ◌≡◌, refl, sym, ap, ◌∙◌, false, List, [], ◌∷◌, ◌++◌, if◌then◌else◌,
  ltb, arith, String, length, max, filter, filter-append, Bool-cases, inl, inr,
}
use mathlib.Core.List.{append-nil}
use outright.Runtime.EventHub.{
  Event, is_unretained, Entry, Limits, Hub, new_hub, Frame, Attempt, to_frames, is_missed,
  frames_after, trim, retain, record_event, publish,
}

abbrev pub total : List Entry → ℕ
total [] = 0
total (e ∷ rest) = e.bytes + total rest

-- The entries after a cursor.
abbrev pub above : ℕ → List Entry → List Entry
above t = filter (λ e. ltb t e.event_id)

total-append : (xs ys : List Entry) → total (xs ++ ys) ≡ total xs + total ys
total-append [] ys = omega arith
total-append (x ∷ xs) ys = omega (arith, total-append xs ys)

module _ (limits : Limits) where
  open limits use {max_events, max_replay_bytes}

  trim_bounds :
      (xs : List Entry) (bytes floor : ℕ)
      → bytes ≡ total xs
      → (length (trim limits xs bytes floor).0 ≤ max_events)
        × ((trim limits xs bytes floor).1 ≤ max_replay_bytes)
        × ((trim limits xs bytes floor).1 ≡ total (trim limits xs bytes floor).0)
        × (floor ≤ (trim limits xs bytes floor).2)
  unfolding trim
  trim_bounds [] bytes floor h = (omega arith, omega arith, omega arith, omega arith)
  trim_bounds (e ∷ xs) bytes floor h =
      ground (arith, trim_bounds xs (bytes - e.bytes) (max floor e.event_id))

  trim_floor : (xs : List Entry) (bytes floor : ℕ) → floor ≤ (trim limits xs bytes floor).2
  unfolding trim
  trim_floor [] bytes floor = omega arith
  trim_floor (e ∷ xs) bytes floor =
      ground (arith, trim_floor xs (bytes - e.bytes) (max floor e.event_id))

  -- What `trim` drops lies at or below the floor that it returns.
  above-trim :
      (xs : List Entry) (bytes floor t : ℕ)
      → (trim limits xs bytes floor).2 ≤ t
      → above t (trim limits xs bytes floor).0 ≡ above t xs
  unfolding trim
  above-trim [] bytes floor t h = refl
  above-trim (e ∷ xs) bytes floor t h = ground (
    arith,
    trim_floor xs (bytes - e.bytes) (max floor e.event_id),
    above-trim xs (bytes - e.bytes) (max floor e.event_id) t,
  )

  -- The replay is within its limits, `replay_bytes` counts it, and above any cursor from the floor
  -- on it holds the whole log.
  pub record IsValid (h : Hub) (log : List Entry) : Type 0 where
    pub few : length h.replay ≤ max_events
    pub small : h.replay_bytes ≤ max_replay_bytes
    pub counted : h.replay_bytes ≡ total h.replay
    pub complete : (t : ℕ) → h.replay_floor ≤ t → above t h.replay ≡ above t log

  pub new_hub-IsValid : IsValid new_hub []
  unfolding new_hub
  new_hub-IsValid = record {
    few = omega arith;
    small = omega arith;
    counted = omega arith;
    complete = λ t h. refl;
  }

  above-snoc_le :
      (t : ℕ) (xs : List Entry) (e : Entry) → e.event_id ≤ t → above t (xs ++ e ∷ []) ≡ above t xs
  above-snoc_le t xs e h =
      filter-append (λ (d : Entry). ltb t d.event_id) xs (e ∷ [])
      ∙ ground (arith, append-nil (above t xs))

  above-snoc_congr :
      (t : ℕ) (xs ys : List Entry) (e : Entry)
      → above t xs ≡ above t ys
      → above t (xs ++ e ∷ []) ≡ above t (ys ++ e ∷ [])
  above-snoc_congr t xs ys e h = rw (
    filter-append (λ (d : Entry). ltb t d.event_id) xs (e ∷ []),
    filter-append (λ (d : Entry). ltb t d.event_id) ys (e ∷ []),
    h,
  )

  -- The clients and the last number do not matter.
  pub renumber-IsValid :
      (h : Hub) (log : List Entry) (clients : List String) (n : ℕ)
      → IsValid h log
      → IsValid (record h { clients = clients; last_event_id = n }) log
  renumber-IsValid h log clients n v = record {
    few = v.few;
    small = v.small;
    counted = v.counted;
    complete = v.complete;
  }

  retain-IsValid :
      (h : Hub) (log : List Entry) (e : Entry)
      → IsValid h log
      → IsValid (retain limits h e) (log ++ e ∷ [])
  unfolding retain
  retain-IsValid h log e v =
      let extended = h.replay ++ e ∷ [] in
      let bytes = h.replay_bytes + e.bytes in
      let counts : bytes ≡ total extended =
        omega (arith, total-append h.replay (e ∷ []), v.counted) in
      elim (Bool-cases (ltb max_replay_bytes e.bytes)) [
        | inl big ↦ rw big (record {
          few = v.few;
          small = v.small;
          counted = v.counted;
          complete =
              λ t low. v.complete t (omega arith) ∙ sym (above-snoc_le t log e (omega arith));
        })
        | inr fit ↦ rw fit (record {
          few = (trim_bounds extended bytes h.replay_floor counts).0;
          small = (trim_bounds extended bytes h.replay_floor counts).1;
          counted = (trim_bounds extended bytes h.replay_floor counts).2;
          complete = λ t low.
              above-trim extended bytes h.replay_floor t low
              ∙ above-snoc_congr t h.replay log e
                  (v.complete t (omega (arith, low, trim_floor extended bytes h.replay_floor)));
        })
      ]

-- The events that may be replayed, as `publish` numbers them.
unfoldable pub logged : Hub → Event → ℕ → List Entry → List Entry
logged h event size log =
    if is_unretained event.kind
    then log
    else log ++ record { event_id = suc h.last_event_id; event = event; bytes = size } ∷ []

module _ (limits : Limits) (frame_bytes : Frame → ℕ) (socket : String → Frame → Attempt) where
  pub record_event-IsValid :
      (h : Hub) (log : List Entry) (event : Event) (size : ℕ)
      → IsValid limits h log
      → IsValid limits (record_event limits h event size).0 (logged h event size log)
  unfolding record_event logged
  record_event-IsValid h log event size v =
      let numbered = renumber-IsValid limits h log h.clients (suc h.last_event_id) v in
      elim (Bool-cases (is_unretained event.kind)) [
        | inl e ↦ rw e numbered
        | inr e ↦ rw e (retain-IsValid limits _ log _ numbered)
      ]

  pub publish-IsValid :
      (h : Hub) (log : List Entry) (event : Event) (size : ℕ)
      → IsValid limits h log
      → IsValid limits (publish limits frame_bytes socket h event size).0 (logged h event size log)
  unfolding publish
  publish-IsValid h log event size v =
      let recorded = (record_event limits h event size).0 in
      renumber-IsValid limits recorded _ _ recorded.last_event_id
        (record_event-IsValid h log event size v)

  -- A run of the hub, with the log of all events so far that may be replayed.
  unfoldable pub publish_all : Hub → List Entry → List (Event × ℕ) → Hub × List Entry
  publish_all h log [] = (h, log)
  publish_all h log ((event, size) ∷ rest) =
      publish_all (publish limits frame_bytes socket h event size).0 (logged h event size log) rest

  publish_all-IsValid :
      (h : Hub) (log : List Entry) (events : List (Event × ℕ))
      → IsValid limits h log
      → IsValid limits (publish_all h log events).0 (publish_all h log events).1
  unfolding publish_all
  publish_all-IsValid h log [] v = v
  publish_all-IsValid h log ((event, size) ∷ rest) v =
      publish_all-IsValid (publish limits frame_bytes socket h event size).0
        (logged h event size log) rest (publish-IsValid h log event size v)

  -- After any events the replay is within both limits.
  pub publish_all_bounds :
      (events : List (Event × ℕ))
      → (length (publish_all new_hub [] events).0.replay ≤ limits.max_events)
        × (total (publish_all new_hub [] events).0.replay ≤ limits.max_replay_bytes)
  publish_all_bounds events =
      let v = publish_all-IsValid new_hub [] events (new_hub-IsValid limits) in
      (v.few, omega (arith, v.counted, v.small))

  -- For a client whose cursor is above zero and not reported missed the hub holds, after any events,
  -- exactly the events after the cursor that may be replayed, in order.
  pub frames_after-publish_all :
      (events : List (Event × ℕ)) (after : ℕ)
      → 0 < after
      → is_missed (publish_all new_hub [] events).0 after ≡ false
      → frames_after (publish_all new_hub [] events).0 after
        ≡ to_frames (above after (publish_all new_hub [] events).1)
  frames_after-publish_all events after pos seen =
      let v = publish_all-IsValid new_hub [] events (new_hub-IsValid limits) in
      ap to_frames (v.complete after (ground arith))
