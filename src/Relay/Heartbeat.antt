-- ===== src/Relay/Heartbeat.antt =====
-- The heartbeat and the datagrams share a connection: they are told apart, and the client ends a
-- session when it has not heard of the server.
use smart_fec_tunnel.Base.{
  ℕ, ◌+◌, ◌-◌, ◌%◌, ◌≤◌, ◌<◌, ◌≡◌, refl, sym, ap, subst, ◌∙◌, false, ltb, if◌then◌else◌, Bool-cases,
  inl, inr, Option, none, some, List, [], ◌∷◌, ◌++◌, length, Result, ok, err, ◌>>=◌, bind-ok,
  bail_if-ok, arith,
}
use smart_fec_tunnel.Base.Bytes.{be, bytes_eq, bytes_eq→eq, slice, from_be, from_be-be}
use smart_fec_tunnel.Carrier.{
  Groups, CarrierError, push, carrier_frame, carrier_frames, send_carrier,
}
use smart_fec_tunnel.Carrier.Send.{sent_chunks, send_carrier_chunks}
use smart_fec_tunnel.Carrier.Delivery.{HasRoom, payloads, deliver, deliver-ok, deliver-send_carrier}
use smart_fec_tunnel.Relay.Connection.{
  carrier_ping, carrier_pong, RelayError, lift_carrier, RelayOutput, RelayConnection, datagram,
  deliver_packet, after_datagram, after_incoming, relay_step, ClientSession, ClientEvent, local,
  heartbeat, incoming, client_stats_tick, client_step, new_session, heartbeat_timeout,
}

-- The payloads for the upstream from datagrams that arrive one after the other at the time `now`.
unfoldable pub relay_all : RelayConnection → ℕ → List (List ℕ) → Result RelayError (List (List ℕ))
relay_all r now [] = ok []
relay_all r now (d ∷ ds) = do
  (next, out) ← relay_step r now (datagram d)
  rest ← relay_all next now ds
  ok (out.packets ++ rest)

-- The datagram is no heartbeat.
abbrev pub IsCarrier : List ℕ → Type 0
IsCarrier d = (bytes_eq d carrier_ping ≡ false) × (bytes_eq d carrier_pong ≡ false)

abbrev pub AllCarrier : List (List ℕ) → Type 0
AllCarrier [] = Unit {0}
AllCarrier (d ∷ ds) = IsCarrier d × AllCarrier ds

count_field :
    (message index count : ℕ) (part : List ℕ)
    → count < 65536
    → from_be (slice 10 12 (carrier_frame message index count part)) ≡ count
unfolding carrier_frame be
count_field message index count part h =
    let e : count % 65536 ≡ count = omega arith in
    subst (λ k. from_be (be 2 k) ≡ count) (sym e) (from_be-be 2 count (omega arith))

-- A heartbeat would have 11569 as its number of fragments.
frame_differs :
    (beat : List ℕ) (message index count : ℕ) (part : List ℕ)
    → from_be (slice 10 12 beat) ≡ 11569
    → count ≤ 128
    → bytes_eq (carrier_frame message index count part) beat ≡ false
frame_differs beat message index count part b h =
    elim (Bool-cases (bytes_eq (carrier_frame message index count part) beat)) [
      | inr other ↦ other
      | inl same ↦
          let e = bytes_eq→eq (carrier_frame message index count part) beat same in
          let field = count_field message index count part (omega arith) in
          let f : 11569 ≡ count = sym b ∙ ap (λ x. from_be (slice 10 12 x)) (sym e) ∙ field in
          absurd (omega arith)
    ]

carrier_frame-IsCarrier :
    (message index count : ℕ) (part : List ℕ)
    → count ≤ 128
    → IsCarrier (carrier_frame message index count part)
unfolding from_be
carrier_frame-IsCarrier message index count part h = (
  frame_differs carrier_ping message index count part refl h,
  frame_differs carrier_pong message index count part refl h,
)

carrier_frames-AllCarrier :
    (message count index : ℕ) (parts : List (List ℕ))
    → count ≤ 128
    → AllCarrier (carrier_frames message count index parts)
unfolding carrier_frames
carrier_frames-AllCarrier message count index [] h = tt
carrier_frames-AllCarrier message count index (part ∷ parts) h = (
  carrier_frame-IsCarrier message index count part h,
  carrier_frames-AllCarrier message count (index + 1) parts h,
)

relay_step-datagram :
    (r : RelayConnection) (now : ℕ) (d : List ℕ) (more : Groups) (o : Option (List ℕ))
    → IsCarrier d
    → push r.received now d ≡ (more, ok o)
    → relay_step r now (datagram d) ≡ ok (record r { received = more }, deliver_packet o)
unfolding relay_step
relay_step-datagram r now d more o a h = rw (relay_step, a.0) (ap (after_datagram r) h)

packets-deliver_packet : (o : Option (List ℕ)) → (deliver_packet o).packets ≡ payloads o
packets-deliver_packet none = refl
packets-deliver_packet (some p) = refl

relay_all-deliver :
    (r : RelayConnection) (now : ℕ) (ds : List (List ℕ)) (out : List (List ℕ))
    → AllCarrier ds
    → deliver r.received now ds ≡ ok out
    → relay_all r now ds ≡ ok out
unfolding relay_all deliver
relay_all-deliver r now [] out a h = ground arith
relay_all-deliver r now (d ∷ ds) out a h =
    let (more, o, rest, e, f, g) = deliver-ok r.received now d ds out h in
    let ih = relay_all-deliver (record r { received = more }) now ds rest (a.1) f in
    rw (relay_all, relay_step-datagram r now d more o (a.0) e, ih)
      (ap ok (ap (λ x. x ++ rest) (packets-deliver_packet o) ∙ sym g))

-- What the client's end puts on the connection for a payload of at most 65535 bytes is no
-- heartbeat; when it arrives in order and at one time, the server's end sends that payload, and
-- nothing else, to the upstream, and the connection stays, if the server has no group of that
-- message number and fewer than 2048 groups that have not expired.
pub relay_all-send_carrier :
    (r : RelayConnection) (now maximum message next : ℕ) (payload : List ℕ) (frames : List (List ℕ))
    → send_carrier (some maximum) payload message ≡ ok (next, frames)
    → length payload ≤ 65535
    → HasRoom r.received now next
    → AllCarrier frames × (relay_all r now frames ≡ ok (payload ∷ []))
relay_all-send_carrier r now maximum message next payload frames sent size room =
    let (counted, all, whole, few) = send_carrier_chunks maximum message next payload frames sent in
    let cs = sent_chunks (maximum - 12) payload in
    let a = subst AllCarrier (sym all) (carrier_frames-AllCarrier next (length cs) 0 cs few) in
    (
      a,
      relay_all-deliver r now frames (payload ∷ []) a
          (deliver-send_carrier r.received now maximum message next payload frames sent size room),
    )

-- When the client last heard of the server in a run of events: the start, or the last datagram.
unfoldable pub last_heard : ℕ → List (ℕ × ClientEvent) → ℕ
last_heard start [] = start
last_heard start ((now, incoming bytes) ∷ events) = last_heard now events
last_heard start ((now, local address maximum payload) ∷ events) = last_heard start events
last_heard start ((now, heartbeat) ∷ events) = last_heard start events
last_heard start ((now, client_stats_tick current) ∷ events) = last_heard start events

-- The session after a run of events.
unfoldable pub client_run : ClientSession → List (ℕ × ClientEvent) → Result RelayError ClientSession
client_run s [] = ok s
client_run s ((now, event) ∷ events) = do
  (next, out) ← client_step s now event
  client_run next events

after_incoming-heard :
    (s next : ClientSession) (p : Groups × Result CarrierError (Option (List ℕ)))
    (out : RelayOutput)
    → after_incoming s p ≡ ok (next, out)
    → next.last_server_activity ≡ s.last_server_activity
after_incoming-heard s next (received, ok payload) out h = ground arith
after_incoming-heard s next (received, err e) out h = cc

-- When an event went well, the session knows when it last heard of the server.
client_step-heard :
    (s next : ClientSession) (now : ℕ) (event : ClientEvent) (out : RelayOutput)
    → client_step s now event ≡ ok (next, out)
    → next.last_server_activity ≡ last_heard s.last_server_activity ((now, event) ∷ [])
unfolding client_step last_heard
client_step-heard s next now (local address maximum payload) out h =
    let (sent, e, f) =
      bind-ok (lift_carrier (send_carrier maximum payload s.message)) _ (next, out) h in
    ground arith
client_step-heard s next now heartbeat out h =
    let (alive, f) = bail_if-ok (ltb 6000 (now - s.last_server_activity)) _ _ (next, out) h in
    ground arith
client_step-heard s next now (incoming bytes) out h =
    elim (Bool-cases (bytes_eq bytes carrier_pong)) [
      | inl pong ↦ ground arith
      | inr other ↦
          after_incoming-heard (record s { last_server_activity = now }) next
            (push s.received now bytes) out (ground arith)
    ]
client_step-heard s next now (client_stats_tick current) out h = ground arith

last_heard-cons :
    (start : ℕ) (event : ℕ × ClientEvent) (events : List (ℕ × ClientEvent))
    → last_heard start (event ∷ events) ≡ last_heard (last_heard start (event ∷ [])) events
unfolding last_heard
last_heard-cons start (now, local address maximum payload) events = refl
last_heard-cons start (now, heartbeat) events = refl
last_heard-cons start (now, incoming bytes) events = refl
last_heard-cons start (now, client_stats_tick current) events = refl

client_run-heard :
    (s next : ClientSession) (events : List (ℕ × ClientEvent))
    → client_run s events ≡ ok next
    → next.last_server_activity ≡ last_heard s.last_server_activity events
unfolding client_run
client_run-heard s next [] h = unfold last_heard in ground arith
client_run-heard s next ((now, event) ∷ events) h =
    let ((middle, out), e, f) = bind-ok (client_step s now event) _ next h in
    client_run-heard middle next events f
    ∙ ap (λ t. last_heard t events) (client_step-heard s middle now event out e)
    ∙ sym (last_heard-cons s.last_server_activity (now, event) events)

-- After any events of a session that started at `start` and goes on, a heartbeat ends it if more
-- than 6 s have passed since the server was last heard of, by a pong or by other traffic, or
-- since the start; otherwise it sends a ping and changes nothing.
pub heartbeat-client_run :
    (start now : ℕ) (events : List (ℕ × ClientEvent)) (s : ClientSession)
    → client_run (new_session start) events ≡ ok s
    → client_step s now heartbeat ≡ (
        if ltb 6000 (now - last_heard start events)
        then err heartbeat_timeout
        else ok (s, record { datagrams = carrier_ping ∷ []; packets = [] }))
unfolding client_step
heartbeat-client_run start now events s h =
    rw (client_step, client_run-heard (new_session start) s events h) (ground arith)
