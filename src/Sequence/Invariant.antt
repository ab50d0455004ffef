-- ===== src/Sequence/Invariant.antt =====
-- The invariant of the window, and the bound on its memory.
use smart_fec_tunnel.Base.{ℕ, ◌-◌, ◌≤◌, List, [], ◌∷◌, length, max, arith}
use smart_fec_tunnel.Base.Ordered.{
  IsAbove, IsBelow, split_above, IsBelow-mono, insert-IsAbove, insert-IsBelow, split_above-cut,
  split_above-IsBelow, length_in_range,
}
use smart_fec_tunnel.Sequence.{
  Window, new, baseline, admit, observe_seq, sequence_report, Event, arrives, report_tick, run,
}

-- The seen numbers are strictly ascending, above the finalised one and not above the highest.
pub record IsValid (w : Window) : Type 0 where
  pub ascending : IsAbove w.finalized_sequence w.seen_sequences
  pub bounded : IsBelow w.highest_sequence w.seen_sequences

pub new-IsValid : IsValid new
new-IsValid = record { ascending = tt; bounded = tt }

baseline-IsValid : (w : Window) (s : ℕ) → IsValid w → IsValid (baseline w s)
unfolding baseline
baseline-IsValid w s v = ground arith

admit-IsValid : (w : Window) (s : ℕ) → IsValid w → IsValid (admit w s).0
unfolding admit
admit-IsValid w s v = ground (
  arith,
  insert-IsAbove w.finalized_sequence s w.seen_sequences,
  insert-IsBelow (max w.highest_sequence s) s w.seen_sequences,
  IsBelow-mono w.highest_sequence (max w.highest_sequence s) w.seen_sequences,
)

pub observe_seq-IsValid : (w : Window) (s : ℕ) → IsValid w → IsValid (observe_seq w s).0
unfolding observe_seq
observe_seq-IsValid w s v = admit-IsValid (baseline w s) s (baseline-IsValid w s v)

pub sequence_report-IsValid : (w : Window) → IsValid w → IsValid (sequence_report w).0
unfolding sequence_report
sequence_report-IsValid w v = ground (
  arith,
  split_above-cut (w.highest_sequence - 64) w.finalized_sequence w.seen_sequences,
  split_above-IsBelow (w.highest_sequence - 64) w.highest_sequence w.seen_sequences,
)

-- Whatever arrives and whenever the timer fires, the seen numbers stay strictly ascending, above
-- the finalised number and not above the highest.
pub run-IsValid : (w : Window) (es : List Event) → IsValid w → IsValid (run w es)
unfolding run
run-IsValid w [] v = v
run-IsValid w (arrives s ∷ es) v = run-IsValid (observe_seq w s).0 es (observe_seq-IsValid w s v)
run-IsValid w (report_tick ∷ es) v =
    run-IsValid (sequence_report w).0 es (sequence_report-IsValid w v)

-- After the report timer has fired, whether it made a report or not, the window holds at most 95
-- sequence numbers, whatever has arrived before.
pub report_bounds_window :
    (w : Window) → IsValid w → length (sequence_report w).0.seen_sequences ≤ 95
unfolding sequence_report
report_bounds_window w v = ground (
  arith,
  length_in_range w.finalized_sequence w.highest_sequence w.seen_sequences v.ascending v.bounded,
  split_above-cut (w.highest_sequence - 64) w.finalized_sequence w.seen_sequences v.ascending,
  split_above-IsBelow (w.highest_sequence - 64) w.highest_sequence w.seen_sequences v.bounded,
  length_in_range (w.highest_sequence - 64) w.highest_sequence
      (split_above (w.highest_sequence - 64) w.seen_sequences),
)
