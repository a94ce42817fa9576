-- ===== src/Runtime/EventHub/Delivery.antt =====
-- Who gets a frame, and who is dropped.
use outright.Base.{
  ℕ, ◌+◌, ◌≡◌, refl, Bool, true, ◌&&◌, ◌||◌, not, List, [], ◌∷◌, leb, arith, String, string_eq,
  ◌==◌, contains,
}
use outright.Runtime.EventHub.{
  Event, Limits, Hub, Frame, event_frame, Attempt, sent, delete_client, add_client, retain,
  record_event, send, send_all, publish,
}

pub contains-delete_client :
    (c d : String) (xs : List String)
    → contains (delete_client c xs) d ≡ (contains xs d && not (c == d))
unfolding delete_client
contains-delete_client c d [] = refl
contains-delete_client c d (x ∷ xs) = ground (
  arith,
  contains-delete_client c d xs,
  string_eq.same_iff x c,
  string_eq.same_iff x d,
  string_eq.same_iff c d,
)

pub contains-add_client :
    (c d : String) (xs : List String) → contains (add_client c xs) d ≡ (contains xs d || c == d)
unfolding add_client
contains-add_client c d [] = ground arith
contains-add_client c d (x ∷ xs) = ground (
  arith,
  contains-add_client c d xs,
  string_eq.same_iff x c,
  string_eq.same_iff x d,
  string_eq.same_iff c d,
)

module _ (limits : Limits) (frame_bytes : Frame → ℕ) (socket : String → Frame → Attempt) where
  -- A client is healthy for a frame if its socket is open, has room, and takes it.
  unfoldable pub is_healthy : String → Frame → Bool
  is_healthy c frame =
      (socket c frame).is_open
      && leb ((socket c frame).buffered + frame_bytes frame) limits.max_client_buffer
      && (socket c frame).returns

  -- `send` keeps a healthy client and no other, and leaves the rest alone.
  pub send_clients :
      (c : String) (frame : Frame) (clients : List String) (d : String)
      → ((send limits frame_bytes socket c frame clients).0 ≡ is_healthy c frame)
        × (contains (send limits frame_bytes socket c frame clients).1 d
            ≡ (contains clients d && (is_healthy c frame || not (c == d))))
  unfolding send is_healthy
  send_clients c frame clients d = ground (arith, contains-delete_client c d clients)

  send_all_clients :
      (cs : List String) (frame : Frame) (clients : List String) (d : String)
      → contains (send_all limits frame_bytes socket cs frame clients).0 d
        ≡ (contains clients d && (is_healthy d frame || not (contains cs d)))
  unfolding send_all
  send_all_clients [] frame clients d = ground arith
  send_all_clients (c ∷ cs) frame clients d = ground (
    arith,
    send_clients c frame clients d,
    send_all_clients cs frame (send limits frame_bytes socket c frame clients).1 d,
    string_eq.same_iff c d,
  )

  clients-record_event :
      (h : Hub) (event : Event) (size : ℕ)
      → (record_event limits h event size).0.clients ≡ h.clients
  unfolding record_event retain
  clients-record_event h event size = ground arith

  -- After an event exactly the clients that took it are still connected.
  pub contains-publish :
      (h : Hub) (event : Event) (size : ℕ) (d : String)
      → contains (publish limits frame_bytes socket h event size).0.clients d
        ≡ (contains h.clients d && is_healthy d (event_frame (record_event limits h event size).1))
  unfolding publish
  contains-publish h event size d =
      let frame = event_frame (record_event limits h event size).1 in
      rw (clients-record_event h event size)
        (ground (arith, send_all_clients h.clients frame h.clients d))

  pub send_healthy :
      (c : String) (frame : Frame) (clients : List String)
      → is_healthy c frame ≡ true
      → send limits frame_bytes socket c frame clients ≡ (true, clients, sent c frame ∷ [])
  unfolding send is_healthy
  send_healthy c frame clients h = ground arith

  -- Whether a client takes every frame of a list.
  unfoldable pub takes_all : String → List Frame → Bool
  takes_all c [] = true
  takes_all c (frame ∷ rest) = is_healthy c frame && takes_all c rest
