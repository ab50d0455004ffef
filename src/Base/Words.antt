-- ===== src/Base/Words.antt =====
-- `lines`, `trim` and `split_whitespace` on texts that are put together from words.
use mathlib.Core.Path.{◌≡◌, refl, ap, ◌∙◌}
use mathlib.Core.Bool.{false}
use mathlib.Core.List.{[], ◌∷◌, ◌++◌}
use native.Mathlib.Omega.{arith}
use smart_fec_tunnel.Base.Tests.{◌==◌}
use smart_fec_tunnel.Base.Text.{
  Text, is_whitespace, AllInk, is_empty, push_char, lines, trim_start, trim_end, trim, is_word_end,
  split_whitespace,
}

-- No line ends in the text.
abbrev pub IsLine : Text → Type 0
IsLine [] = Unit {0}
IsLine (c ∷ cs) = ((c == b'\n') ≡ false) × ((c == b'\r') ≡ false) × IsLine cs

pub lines-line : (s rest : Text) → IsLine s → lines (s ++ b'\n' ∷ rest) ≡ s ∷ lines rest
unfolding lines push_char
lines-line [] rest l = refl
lines-line (c ∷ cs) rest l = ground (arith, lines-line cs rest (l.2))

pub append-IsLine : (s t : Text) → IsLine s → IsLine t → IsLine (s ++ t)
append-IsLine [] t l m = m
append-IsLine (c ∷ cs) t l m = (l.0, l.1, append-IsLine cs t (l.2) m)

pub AllInk-IsLine : (s : Text) → AllInk s → IsLine s
unfolding is_whitespace
AllInk-IsLine [] a = tt
AllInk-IsLine (c ∷ cs) a = (ground arith, ground arith, AllInk-IsLine cs (a.1))

trim_end-ink : (s : Text) → AllInk s → trim_end s ≡ s
unfolding trim_end
trim_end-ink [] a = refl
trim_end-ink (c ∷ cs) a = ground (arith, trim_end-ink cs (a.1))

trim_end-append :
    (s t : Text)
    → AllInk t
    → is_empty t ≡ false
    → (trim_end (s ++ b' ' ∷ t) ≡ s ++ b' ' ∷ t) × (is_empty (s ++ b' ' ∷ t) ≡ false)
unfolding trim_end
trim_end-append [] t a h = (ground (arith, trim_end-ink t a), refl)
trim_end-append (c ∷ cs) t a h =
    let p = trim_end-append cs t a h in (ground (arith, p.0, p.1), refl)

trim_start-ink : (s t : Text) → AllInk s → is_empty s ≡ false → trim_start (s ++ t) ≡ s ++ t
unfolding trim_start
trim_start-ink [] t a h = cc
trim_start-ink (c ∷ cs) t a h = ground arith

split_whitespace-word : (s : Text) → AllInk s → is_empty s ≡ false → split_whitespace s ≡ s ∷ []
unfolding split_whitespace push_char is_word_end
split_whitespace-word [] a h = cc
split_whitespace-word (c ∷ []) a h = ground arith
split_whitespace-word (c ∷ d ∷ cs) a h = ground (arith, split_whitespace-word (d ∷ cs) (a.1) refl)

split_whitespace-append :
    (s t : Text)
    → AllInk s
    → is_empty s ≡ false
    → split_whitespace (s ++ b' ' ∷ t) ≡ s ∷ split_whitespace t
unfolding split_whitespace push_char is_word_end is_whitespace
split_whitespace-append [] t a h = cc
split_whitespace-append (c ∷ []) t a h = ground arith
split_whitespace-append (c ∷ d ∷ cs) t a h =
    ground (arith, split_whitespace-append (d ∷ cs) t (a.1) refl)

module _ (s t : Text) (a : AllInk s) (b : AllInk t) (h : is_empty s ≡ false)
    (k : is_empty t ≡ false) where
  pub trim-two_words : trim (s ++ b' ' ∷ t) ≡ s ++ b' ' ∷ t
  unfolding trim
  trim-two_words = ap trim_end (trim_start-ink s (b' ' ∷ t) a h) ∙ (trim_end-append s t b k).0

  pub split-two_words : split_whitespace (s ++ b' ' ∷ t) ≡ s ∷ t ∷ []
  split-two_words =
      split_whitespace-append s t a h ∙ ap (λ ws. s ∷ ws) (split_whitespace-word t b k)
