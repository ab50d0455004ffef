-- ===== src/Carrier/Tests.antt =====
-- The carrier tests of src/quic_relay.rs, run, and the theorems at concrete inputs.
use smart_fec_tunnel.Base.{ℕ, ◌≡◌, refl, some, List, [], ◌∷◌, ok, err, arith}
use smart_fec_tunnel.Base.Bytes.{be, from_be}
use smart_fec_tunnel.Base.Maps.{get, insert, remove, retain}
use smart_fec_tunnel.Base.Chunks.{chunks, is_complete, join}
use smart_fec_tunnel.Carrier.{
  Groups, invalid_dimensions, prune, fill, collect, place, accept, push, carrier_frame,
  carrier_frames, send_carrier,
}
use smart_fec_tunnel.Carrier.Safety.{Sent, Arrival, AllHonest, AllSent, run-AllSent}
use smart_fec_tunnel.Carrier.Delivery.{HasRoom, deliver, deliver-send_carrier}
use smart_fec_tunnel.Carrier.Send.{sent_chunks}

program : Unit {0}
unfolding push prune accept place fill collect carrier_frame carrier_frames send_carrier be from_be
    get insert remove retain chunks is_complete join sent_chunks
program = tt

abbrev payload : List ℕ
payload = 1 ∷ 2 ∷ 3 ∷ 4 ∷ 5 ∷ []

-- Chunks of two bytes: datagrams of fourteen.
abbrev sent : Sent
sent m = (1 ∷ 2 ∷ []) ∷ (3 ∷ 4 ∷ []) ∷ (5 ∷ []) ∷ []

abbrev frames : List (List ℕ)
frames = carrier_frames 8 3 0 ((1 ∷ 2 ∷ []) ∷ (3 ∷ 4 ∷ []) ∷ (5 ∷ []) ∷ [])

abbrev arrival : ℕ → List ℕ → Arrival
arrival i part = record { now = 100; message = 8; index = i; part = part }

-- Out of order, and the last chunk twice.
abbrev arrivals : List Arrival
arrivals =
    arrival 2 (5 ∷ []) ∷ arrival 2 (5 ∷ []) ∷ arrival 0 (1 ∷ 2 ∷ []) ∷ arrival 1 (3 ∷ 4 ∷ []) ∷ []

one : Groups
one = (push [] 100 (carrier_frame 8 2 3 (5 ∷ []))).0

two : Groups
two = (push one 100 (carrier_frame 8 0 3 (1 ∷ 2 ∷ []))).0

-- carrier_reassembles_out_of_order_and_ignores_duplicates
reassembled : (push two 100 (carrier_frame 8 1 3 (3 ∷ 4 ∷ []))) ≡ ([], ok (some payload))
unfolding program one two
reassembled = refl

-- carrier_rejects_invalid_dimensions
rejected : (push [] 100 (carrier_frame 8 3 3 [])).1 ≡ err invalid_dimensions
unfolding program
rejected = refl

sent_frames : send_carrier (some 14) payload 7 ≡ ok (8, frames)
unfolding program
sent_frames = refl

arrivals-AllHonest : AllHonest sent arrivals
arrivals-AllHonest = ground arith

run-AllSent_example : AllSent sent [] arrivals
run-AllSent_example = run-AllSent sent [] arrivals tt arrivals-AllHonest

empty-HasRoom : HasRoom [] 100 8
unfolding prune retain get
empty-HasRoom = record { distinct = tt; absent = refl; room = omega arith }

deliver-send_carrier_example : deliver [] 100 frames ≡ ok (payload ∷ [])
deliver-send_carrier_example =
    deliver-send_carrier [] 100 14 7 8 payload frames sent_frames (omega arith) empty-HasRoom
