-- ===== src/Sequence/Tests.antt =====
-- The sequence tests of src/main.rs, run, and the theorems at concrete inputs.
use smart_fec_tunnel.Base.{◌+◌, ◌≤◌, ◌≡◌, refl, none, some, List, [], ◌∷◌, arith}
use smart_fec_tunnel.Base.Ordered.{
  contains, insert, count_between, count_absent, split_above, IsDistinct,
}
use smart_fec_tunnel.Sequence.{
  Window, SequenceReport, new, reorder_window, observe_seq, sequence_report, Event, arrives,
  report_tick, accepted, run,
}
use smart_fec_tunnel.Sequence.Invariant.{IsValid, new-IsValid, run-IsValid}
use smart_fec_tunnel.Sequence.Replay.{accepted_once}
use smart_fec_tunnel.Sequence.Loss.{report_counts_missing, short_window_silent}

program : Unit {0}
unfolding observe_seq sequence_report accepted run contains insert count_between count_absent
    split_above
program = tt

-- first_high_sequence_establishes_baseline
high_baseline : (observe_seq new 900).0.finalized_sequence ≡ 899
unfolding program
high_baseline = refl

-- Numbers 1 and 2 have come, then 97; 2 comes again, and 1 after the report.
abbrev events : List Event
events = arrives 1 ∷ arrives 2 ∷ arrives 97 ∷ arrives 2 ∷ report_tick ∷ arrives 1 ∷ arrives 98 ∷ []

run_of_events : accepted new events ≡ 1 ∷ 2 ∷ 97 ∷ 98 ∷ []
unfolding program
run_of_events = refl

abbrev gap : Window
gap = record new {
  highest_sequence = 97;
  seen_sequences = 1 ∷ 2 ∷ 97 ∷ [];
  duplicate_sequences = 1;
}

abbrev after_gap : Window
after_gap = record new { highest_sequence = 97; finalized_sequence = 33; seen_sequences = 97 ∷ [] }

abbrev gap_report : SequenceReport
gap_report = record {
  expected = 33;
  received = 2;
  missing = 31;
  sequence_gap_ppm = 939393;
  late = 0;
  duplicates = 1;
}

gap_reported : sequence_report gap ≡ (after_gap, some gap_report)
unfolding program
gap_reported = refl

gap-IsValid : IsValid gap
gap-IsValid = omega arith

run-IsValid_example : IsValid (run new events)
run-IsValid_example = run-IsValid new events new-IsValid

accepted_once_example : IsDistinct (accepted new events)
accepted_once_example = accepted_once new events

report_counts_missing_example :
    (0 + 33 ≡ 33)
    × (33 + reorder_window ≡ 97)
    × (32 ≤ 33)
    × (31 ≡ count_absent 0 33 gap.seen_sequences)
    × (2 + 31 ≡ 33)
report_counts_missing_example =
    report_counts_missing gap after_gap gap_report gap-IsValid gap_reported

short_window_silent_example :
    sequence_report (record gap { highest_sequence = 95 })
    ≡ (record gap { highest_sequence = 95 }, none)
short_window_silent_example =
    short_window_silent (record gap { highest_sequence = 95 }) (omega arith)
