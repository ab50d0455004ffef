-- ===== src/Carrier.antt =====
-- src/quic_relay.rs: how an SFT datagram is cut into QUIC DATAGRAMs (`send_carrier`) and put
-- together again (`CarrierReassembly::push`). Time is in milliseconds and an argument. Sending is
-- the list of frames handed to the connection, in order; the datagram size that the connection
-- negotiated is an argument, `none` if the peer has no DATAGRAM support.
pub mod Safety
pub mod Send
pub mod Stream
pub mod Delivery
mod Tests
use smart_fec_tunnel.Base.{
  ℕ, suc, ◌+◌, ◌-◌, ◌%◌, max, Bool, true, false, not, ◌||◌, ltb, leb, ◌==◌, if◌then◌else◌, Option,
  none, some, List, [], ◌∷◌, ◌++◌, length, get_elem?, set, drop, replicate, Result, ok, err,
}
use smart_fec_tunnel.Base.Bytes.{be, from_be, slice}
use smart_fec_tunnel.Base.Maps.{nat_key, get, contains_key, insert, remove, retain}
use smart_fec_tunnel.Base.Chunks.{chunks, div_ceil, is_complete, join}

abbrev pub max_datagram : ℕ
max_datagram = 65535

abbrev pub carrier_header : ℕ
carrier_header = 12

abbrev pub max_carrier_fragments : ℕ
max_carrier_fragments = 128

abbrev pub max_carrier_groups : ℕ
max_carrier_groups = 2048

-- In milliseconds.
abbrev pub carrier_ttl : ℕ
carrier_ttl = 3000

pub record CarrierGroup : Type 0 where
  pub created : ℕ
  pub parts : List (Option (List ℕ))

-- CarrierReassembly
abbrev pub Groups : Type 0
Groups = List (ℕ × CarrierGroup)

pub data CarrierError : Type 0 where
  short_fragment invalid_dimensions group_limit inconsistent_count too_large : CarrierError
  no_datagram_support size_too_small too_many_fragments : CarrierError

-- `retain(|_, group| now.duration_since(group.created) <= CARRIER_TTL)`
unfoldable pub prune : ℕ → Groups → Groups
prune now groups = retain (λ g. leb (now - g.created) carrier_ttl) groups

-- `parts[index].get_or_insert_with(...)`
unfoldable pub fill : List (Option (List ℕ)) → ℕ → List ℕ → List (Option (List ℕ))
fill parts index part = elim (get_elem? parts index) [
  | some (some old) ↦ parts
  | _ ↦ set parts index (some part)
]

-- The end of `push`: the group of a message with its new part.
unfoldable pub collect : Groups → ℕ → CarrierGroup → Groups × Result CarrierError (Option (List ℕ))
collect groups message g =
    if not (is_complete g.parts)
    then (insert message g groups, ok none)
    else if ltb max_datagram (length (join g.parts))
    then (remove message groups, err too_large)
    else (remove message groups, ok (some (join g.parts)))

-- `push` from `entry(message)` on, with the group that stands there or is made.
unfoldable pub place :
    Groups → ℕ → ℕ → ℕ → List ℕ → CarrierGroup → Groups × Result CarrierError (Option (List ℕ))
place groups message index count part g =
    if not (length g.parts == count)
    then (insert message g groups, err inconsistent_count)
    else collect groups message (record g { parts = fill g.parts index part })

-- `push` after the dimensions are checked.
unfoldable pub accept :
    Groups → ℕ → ℕ → ℕ → ℕ → List ℕ → Groups × Result CarrierError (Option (List ℕ))
accept groups now message index count part = elim (get message groups) [
  | some g ↦ place groups message index count part g
  | none ↦
      if leb max_carrier_groups (length groups)
      then (groups, err group_limit)
      else place groups message index count part
          (record { created = now; parts = replicate count none })
]

-- CarrierReassembly::push
unfoldable pub push : Groups → ℕ → List ℕ → Groups × Result CarrierError (Option (List ℕ))
push groups now frame =
    if ltb (length frame) carrier_header
    then (groups, err short_fragment)
    else (let message = from_be (slice 0 8 frame) in
        let index = from_be (slice 8 10 frame) in
        let count = from_be (slice 10 12 frame) in
        if count == 0 || (ltb max_carrier_fragments count || leb count index)
        then (groups, err invalid_dimensions)
        else accept (prune now groups) now message index count (drop carrier_header frame))

-- A frame of `send_carrier`.
unfoldable pub carrier_frame : ℕ → ℕ → ℕ → List ℕ → List ℕ
carrier_frame message index count part =
    be 8 message ++ (be 2 (index % 65536) ++ (be 2 (count % 65536) ++ part))

-- `payload.chunks(chunk).enumerate()`, each written as a frame.
unfoldable pub carrier_frames : ℕ → ℕ → ℕ → List (List ℕ) → List (List ℕ)
carrier_frames message count index [] = []
carrier_frames message count index (part ∷ parts) =
    carrier_frame message index count part ∷ carrier_frames message count (index + 1) parts

abbrev pub is_empty : List ℕ → Bool
is_empty [] = true
is_empty (x ∷ xs) = false

-- send_carrier: the new message counter and the frames.
unfoldable pub send_carrier : Option ℕ → List ℕ → ℕ → Result CarrierError (ℕ × List (List ℕ))
unfolding carrier_frames carrier_frame
send_carrier none payload message = err no_datagram_support
send_carrier (some maximum) payload message =
    if leb maximum carrier_header
    then err size_too_small
    else (let chunk = maximum - carrier_header in
        let count = div_ceil (max (length payload) 1) chunk in
        if ltb max_carrier_fragments count
        then err too_many_fragments
        else (let next = (message + 1) % 18446744073709551616 in
            ok (
              next,
              carrier_frames next count 0 (chunks chunk payload)
                  ++ (if is_empty payload then carrier_frame next 0 1 [] ∷ [] else []),
            )))
