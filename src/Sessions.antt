-- ===== src/Sessions.antt =====
-- src/main.rs, the table of sessions of `server`: which frames open a session, which sessions a
-- restarted client takes over, the limits, and the cleanup. Time is an argument, in seconds. The
-- task of a session is what the table knows of it: whether it has finished, and the frames that
-- wait in its channel of 256, each with the address it came from; frames that do not fit, or come
-- after its end, are dropped. The cell `last_seen`, which the session's task shares, is the entry's.
-- A socket address is a number.
pub mod Exclusive
pub mod Worker
mod Tests
use smart_fec_tunnel.Base.{
  ℕ, ◌+◌, ◌-◌, Bool, true, false, not, ◌&&◌, ◌||◌, ltb, leb, ◌==◌, if◌then◌else◌, Option, none,
  some, List, [], ◌∷◌, ◌++◌, length, Result, ok, err,
}
use smart_fec_tunnel.Base.Maps.{pair_key, get, contains_key, insert, remove, retain}
use smart_fec_tunnel.Wire.{Frame, version_v1, version_v2, version_v3}

abbrev pub max_v2_sessions_per_device : ℕ
max_v2_sessions_per_device = 16

abbrev pub max_v1_migration_sessions : ℕ
max_v1_migration_sessions = 64

abbrev pub session_takeover_max_sequence : ℕ
session_takeover_max_sequence = 32

pub record SessionPacket : Type 0 where
  pub frame : Frame
  pub peer : ℕ

pub record SessionEntry : Type 0 where
  pub last_seen : ℕ
  pub queued : List SessionPacket
  pub is_finished : Bool

abbrev pub Sessions : Type 0
Sessions = List ((ℕ × ℕ) × SessionEntry)

-- The other sessions of a device.
unfoldable pub others : Sessions → ℕ → ℕ → List (ℕ × ℕ)
others [] key_id session = []
others ((id, entry) ∷ rest) key_id session =
    if id.0 == key_id && not (id.1 == session)
    then id ∷ others rest key_id session
    else others rest key_id session

-- superseded_sessions
unfoldable pub superseded_sessions : Sessions → ℕ → ℕ → ℕ → Option (List (ℕ × ℕ))
unfolding others
superseded_sessions sessions key_id session sequence = elim (others sessions key_id session) [
  | [] ↦ some []
  | id ∷ existing ↦
      if leb sequence session_takeover_max_sequence then some (id ∷ existing) else none
]

unfoldable pub remove_sessions : List (ℕ × ℕ) → Sessions → Sessions
remove_sessions [] sessions = sessions
remove_sessions (id ∷ ids) sessions = remove_sessions ids (remove id sessions)

-- `sessions.keys().filter(|(id, _)| *id == key_id).count()`
unfoldable pub device_count : ℕ → Sessions → ℕ
device_count key_id [] = 0
device_count key_id ((id, entry) ∷ rest) =
    if id.0 == key_id then device_count key_id rest + 1 else device_count key_id rest

abbrev pub is_v2_or_v3 : Frame → Bool
is_v2_or_v3 f = f.version == version_v2 || f.version == version_v3

-- The limits on a new session.
unfoldable pub at_limit : ℕ → Sessions → Frame → Bool
unfolding device_count
at_limit max_sessions sessions f =
    leb max_sessions (length sessions)
    || ((f.version == version_v1 && leb max_v1_migration_sessions (device_count 0 sessions))
        || (is_v2_or_v3 f && leb max_v2_sessions_per_device (device_count f.key_id sessions)))

-- A new session, if the limits allow it.
unfoldable pub start : ℕ → ℕ → Sessions → Frame → Sessions
unfolding at_limit
start max_sessions now sessions f =
    if at_limit max_sessions sessions f
    then sessions
    else insert (f.key_id, f.session) (record { last_seen = now; queued = []; is_finished = false })
        sessions

-- The table after a frame for a session that is not there, before the frame is queued.
unfoldable pub open_session : ℕ → ℕ → Sessions → Frame → Sessions
unfolding start superseded_sessions remove_sessions
open_session max_sessions now sessions f =
    if is_v2_or_v3 f
    then (elim (superseded_sessions sessions f.key_id f.session f.sequence) [
      | none ↦ sessions
      | some superseded ↦ start max_sessions now (remove_sessions superseded sessions) f
    ])
    else start max_sessions now sessions f

-- `try_send`
unfoldable pub try_send : SessionEntry → SessionPacket → SessionEntry
try_send entry packet =
    if entry.is_finished || leb 256 (length entry.queued)
    then entry
    else record entry { queued = entry.queued ++ packet ∷ [] }

-- The last `if let` of the arm: the frame goes to its session, if that is there.
unfoldable pub hand_over : ℕ → Sessions → SessionPacket → Sessions
unfolding try_send
hand_over now sessions packet = elim (get (packet.frame.key_id, packet.frame.session) sessions) [
  | none ↦ sessions
  | some entry ↦
      insert (packet.frame.key_id, packet.frame.session)
        (try_send (record entry { last_seen = now }) packet) sessions
]

-- An authentic frame arrives from an address.
unfoldable pub receive : ℕ → ℕ → Sessions → Frame → ℕ → Sessions
unfolding hand_over open_session
receive max_sessions now sessions f peer =
    hand_over now
      (if contains_key (f.key_id, f.session) sessions
        then sessions
        else open_session max_sessions now sessions f)
      (record { frame = f; peer = peer })

-- `cleanup.tick()`
unfoldable pub cleanup : ℕ → ℕ → Sessions → Sessions
cleanup idle now sessions =
    retain (λ entry. not (entry.is_finished || leb idle (now - entry.last_seen))) sessions
