-- ===== src/Sequence.antt =====
-- src/main.rs, `Decoder::observe_seq` and `Decoder::sequence_report`: which sequence numbers of a
-- session count as new, and the loss that is measured over a finalised window. `Window` holds the
-- five fields of `Decoder` that these methods use; the set of seen numbers is the ascending list
-- of its members (`BTreeSet`), and numbers are `u64`.
pub mod Invariant
pub mod Replay
pub mod Loss
mod Tests
use smart_fec_tunnel.Base.{
  ℕ, ◌+◌, ◌-◌, ◌*◌, ◌/◌, ◌%◌, ◌^◌, min, max, Bool, true, false, ◌&&◌, ltb, leb, ◌==◌, if◌then◌else◌,
  Option, none, some, List, [], ◌∷◌,
}
use smart_fec_tunnel.Base.Ordered.{contains, insert, count_between, split_above}

abbrev pub u64_max : ℕ
u64_max = 18446744073709551615

abbrev pub reorder_window : ℕ
reorder_window = 64

-- u64::saturating_add(1)
abbrev pub saturating_inc_u64 : ℕ → ℕ
saturating_inc_u64 n = min u64_max (n + 1)

pub record Window : Type 0 where
  pub highest_sequence : ℕ
  pub finalized_sequence : ℕ
  pub seen_sequences : List ℕ
  pub late_sequences : ℕ
  pub duplicate_sequences : ℕ

pub record SequenceReport : Type 0 where
  pub expected : ℕ
  pub received : ℕ
  pub missing : ℕ
  pub sequence_gap_ppm : ℕ
  pub late : ℕ
  pub duplicates : ℕ

-- The fields as `Decoder::new` sets them.
abbrev pub new : Window
new = record {
  highest_sequence = 0;
  finalized_sequence = 0;
  seen_sequences = [];
  late_sequences = 0;
  duplicate_sequences = 0;
}

abbrev pub is_empty : List ℕ → Bool
is_empty [] = true
is_empty (x ∷ xs) = false

-- The first `if` of `observe_seq`: the first number of a session sets the baseline below it.
unfoldable pub baseline : Window → ℕ → Window
baseline w seq =
    if w.highest_sequence == 0 && (w.finalized_sequence == 0 && is_empty w.seen_sequences)
    then record w { finalized_sequence = seq - 1 }
    else w

-- The rest of `observe_seq`.
unfoldable pub admit : Window → ℕ → Window × Bool
admit w seq =
    if leb seq w.finalized_sequence
    then (record w { late_sequences = saturating_inc_u64 w.late_sequences }, false)
    else (let v : Window = record w { highest_sequence = max w.highest_sequence seq } in
        if contains seq v.seen_sequences
        then (record v { duplicate_sequences = saturating_inc_u64 v.duplicate_sequences }, false)
        else (record v { seen_sequences = insert seq v.seen_sequences }, true))

-- Decoder::observe_seq
unfoldable pub observe_seq : Window → ℕ → Window × Bool
unfolding baseline admit
observe_seq w seq = admit (baseline w seq) seq

-- `(missing as u128 * 1_000_000 / expected as u128) as u32`
abbrev pub gap_ppm : ℕ → ℕ → ℕ
gap_ppm missing expected = (missing * 1000000 / expected) % 4294967296

-- The body of `sequence_report` once the window is long enough.
unfoldable pub finalize : Window → ℕ → Window × SequenceReport
finalize w cutoff =
    let expected : ℕ = cutoff - w.finalized_sequence in
    let received : ℕ = count_between w.finalized_sequence cutoff w.seen_sequences in
    let missing : ℕ = expected - received in
    (
      record w {
        seen_sequences = split_above cutoff w.seen_sequences;
        finalized_sequence = cutoff;
        late_sequences = 0;
        duplicate_sequences = 0;
      },
      record {
        expected = expected;
        received = received;
        missing = missing;
        sequence_gap_ppm = min (gap_ppm missing expected) 1000000;
        late = w.late_sequences;
        duplicates = w.duplicate_sequences;
      },
    )

-- Decoder::sequence_report
unfoldable pub sequence_report : Window → Window × Option SequenceReport
unfolding finalize
sequence_report w =
    let cutoff : ℕ = w.highest_sequence - reorder_window in
    if leb cutoff w.finalized_sequence
    then (w, none)
    else if ltb (cutoff - w.finalized_sequence) 32
    then (w, none)
    else (let (v, r) = finalize w cutoff in (v, some r))

-- What can happen to a window: a number arrives, or the report timer fires.
pub data Event : Type 0 where
  arrives : ℕ → Event
  report_tick : Event

-- The numbers that a run of events accepts, in order.
unfoldable pub accepted : Window → List Event → List ℕ
accepted w [] = []
accepted w (arrives s ∷ es) =
    let (v, fresh) = observe_seq w s in let rest = accepted v es in if fresh then s ∷ rest else rest
accepted w (report_tick ∷ es) = accepted (sequence_report w).0 es

-- The window after a run of events.
unfoldable pub run : Window → List Event → Window
run w [] = w
run w (arrives s ∷ es) = run (observe_seq w s).0 es
run w (report_tick ∷ es) = run (sequence_report w).0 es
