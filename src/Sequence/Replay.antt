-- ===== src/Sequence/Replay.antt =====
-- No sequence number is accepted twice, whatever the order of arrivals and reports.
use smart_fec_tunnel.Base.{
  ℕ, ◌-◌, ◌<◌, ◌≡◌, refl, true, false, ◌||◌, ◌&&◌, not, ltb, leb, List, [], ◌∷◌, arith,
}
use smart_fec_tunnel.Base.Ordered.{contains, contains-insert, contains-split_above, IsDistinct}
use smart_fec_tunnel.Sequence.{
  Window, baseline, admit, observe_seq, sequence_report, Event, arrives, report_tick, accepted,
}

-- The number lies at or below the finalised one, or was seen.
abbrev pub IsBlocked : ℕ → Window → Type 0
IsBlocked s w = (leb s w.finalized_sequence || contains s w.seen_sequences) ≡ true

baseline-IsBlocked : (s n : ℕ) (w : Window) → IsBlocked s w → IsBlocked s (baseline w n)
unfolding baseline contains
baseline-IsBlocked s n w b = ground arith

admit-IsBlocked : (s n : ℕ) (w : Window) → IsBlocked s w → IsBlocked s (admit w n).0
unfolding admit
admit-IsBlocked s n w b = ground (arith, contains-insert s n w.seen_sequences)

-- A blocked number stays blocked, whichever number arrives.
pub observe_seq-IsBlocked : (s n : ℕ) (w : Window) → IsBlocked s w → IsBlocked s (observe_seq w n).0
unfolding observe_seq
observe_seq-IsBlocked s n w b = admit-IsBlocked s n (baseline w n) (baseline-IsBlocked s n w b)

pub sequence_report-IsBlocked :
    (s : ℕ) (w : Window) → IsBlocked s w → IsBlocked s (sequence_report w).0
unfolding sequence_report
sequence_report-IsBlocked s w b =
    ground (arith, contains-split_above (w.highest_sequence - 64) s w.seen_sequences)

admit_blocked : (s : ℕ) (w : Window) → IsBlocked s w → (admit w s).1 ≡ false
unfolding admit
admit_blocked s w b = ground arith

admit_blocks : (s : ℕ) (w : Window) → IsBlocked s (admit w s).0
unfolding admit
admit_blocks s w = ground (arith, contains-insert s s w.seen_sequences)

-- Once a number has arrived, accepted or not, it is refused at its next arrival.
observe_seq_blocks : (s : ℕ) (w : Window) → IsBlocked s (observe_seq w s).0
unfolding observe_seq
observe_seq_blocks s w = admit_blocks s (baseline w s)

observe_seq_blocked : (s : ℕ) (w : Window) → IsBlocked s w → (observe_seq w s).1 ≡ false
unfolding observe_seq
observe_seq_blocked s w b = admit_blocked s (baseline w s) (baseline-IsBlocked s s w b)

-- A blocked number is among none of the numbers that any later run accepts.
blocked_never_accepted :
    (s : ℕ) (w : Window) (es : List Event) → IsBlocked s w → contains s (accepted w es) ≡ false
unfolding accepted contains
blocked_never_accepted s w [] b = refl
blocked_never_accepted s w (arrives n ∷ es) b = ground (
  arith,
  blocked_never_accepted s (observe_seq w n).0 es (observe_seq-IsBlocked s n w b),
  observe_seq_blocked s w b,
)
blocked_never_accepted s w (report_tick ∷ es) b =
    blocked_never_accepted s (sequence_report w).0 es (sequence_report-IsBlocked s w b)

-- A run of arrivals and report ticks in any order, from any state of the window, accepts each
-- sequence number at most once.
pub accepted_once : (w : Window) (es : List Event) → IsDistinct (accepted w es)
unfolding accepted
accepted_once w [] = tt
accepted_once w (arrives s ∷ es) = ground (
  arith,
  accepted_once (observe_seq w s).0 es,
  blocked_never_accepted s (observe_seq w s).0 es (observe_seq_blocks s w),
)
accepted_once w (report_tick ∷ es) = accepted_once (sequence_report w).0 es

-- `observe_seq` accepts a number of an established window exactly when it lies above the finalised
-- number and is not among the seen ones.
pub observe_seq_fresh_iff :
    (w : Window) (s : ℕ)
    → 0 < w.highest_sequence
    → (observe_seq w s).1 ≡ (ltb w.finalized_sequence s && not (contains s w.seen_sequences))
unfolding observe_seq
observe_seq_fresh_iff w s h = ground arith
