-- ===== src/Sequence/Loss.antt =====
-- What a loss report says: exactly the numbers of the finalised window that never came.
use smart_fec_tunnel.Base.{ℕ, ◌+◌, ◌-◌, ◌*◌, ◌/◌, ◌≤◌, ◌<◌, ◌≡◌, none, some, min, arith}
use smart_fec_tunnel.Base.Ordered.{count_absent, count_between-to}
use smart_fec_tunnel.Sequence.{Window, SequenceReport, reorder_window, gap_ppm, sequence_report}
use smart_fec_tunnel.Sequence.Invariant.{IsValid}

div_bounds : (a e : ℕ) → 0 < e → (a / e * e ≤ a) × (a < (a / e + 1) * e)
div_bounds a e h = grind arith

gap_ppm-le :
    (missing expected : ℕ)
    → 0 < expected
    → missing ≤ expected
    → missing * 1000000 / expected ≤ 1000000
gap_ppm-le m e h l = grind arith

gap_ppm_exact :
    (missing expected : ℕ)
    → 0 < expected
    → missing ≤ expected
    → min (gap_ppm missing expected) 1000000 ≡ missing * 1000000 / expected
gap_ppm_exact m e h l = omega (arith, gap_ppm-le m e h l)

ppm_of_report :
    (w v : Window) (r : SequenceReport)
    → sequence_report w ≡ (v, some r)
    → (r.sequence_gap_ppm ≡ min (gap_ppm r.missing r.expected) 1000000)
      × (r.missing ≤ r.expected)
      × (32 ≤ r.expected)
unfolding sequence_report
ppm_of_report w v r h = ground arith

-- A report of a valid window covers the numbers after the last report up to 64 below the highest,
-- at least 32 of them. It counts as missing exactly those that were not seen, and as received the
-- rest.
pub report_counts_missing :
    (w v : Window) (r : SequenceReport)
    → IsValid w
    → sequence_report w ≡ (v, some r)
    → (w.finalized_sequence + r.expected ≡ v.finalized_sequence)
      × (v.finalized_sequence + reorder_window ≡ w.highest_sequence)
      × (32 ≤ r.expected)
      × (r.missing ≡ count_absent w.finalized_sequence r.expected w.seen_sequences)
      × (r.received + r.missing ≡ r.expected)
unfolding sequence_report
report_counts_missing w v r i h = ground (
  arith,
  count_between-to w.finalized_sequence w.finalized_sequence (w.highest_sequence - 64)
      w.seen_sequences i.ascending,
)

-- The reported loss is the missing share of the window in parts per million, rounded down, and it
-- never exceeds one million.
pub report_ppm_exact :
    (w v : Window) (r : SequenceReport)
    → sequence_report w ≡ (v, some r)
    → (r.sequence_gap_ppm ≤ 1000000)
      × (r.sequence_gap_ppm * r.expected ≤ r.missing * 1000000)
      × (r.missing * 1000000 < (r.sequence_gap_ppm + 1) * r.expected)
report_ppm_exact w v r h =
    let (ppm, le, long) = ppm_of_report w v r h in
    let pos : 0 < r.expected = omega arith in
    let exact = gap_ppm_exact r.missing r.expected pos le in
    let (low, high) = div_bounds (r.missing * 1000000) r.expected pos in
    rw (ppm, exact) (gap_ppm-le r.missing r.expected pos le, low, high)

-- No report is made while fewer than 32 numbers can be finalised, and then nothing changes.
pub short_window_silent :
    (w : Window) → w.highest_sequence < w.finalized_sequence + 96 → sequence_report w ≡ (w, none)
unfolding sequence_report
short_window_silent w h = ground arith
