-- ===== src/Base/Decimal.antt =====
-- A number in decimal consists of digits and is read back.
use Prim.Native.Nat.{ℕ, zero, suc, ◌+◌, ◌/◌, ◌%◌, ◌^◌, ◌≤◌, ◌<◌}
use mathlib.Core.Path.{◌≡◌, refl, ◌∙◌}
use mathlib.Core.Bool.{false}
use mathlib.Core.Option.{some}
use mathlib.Core.List.{[], ◌∷◌}
use mathlib.Core.Logic.{inl, inr}
use native.Mathlib.Omega.{arith}
use smart_fec_tunnel.Base.Tests.{ltb, Bool-cases}
use smart_fec_tunnel.Base.Text.{
  Text, decimal_from, decimal, parse_digits, parse_u64, is_empty, is_whitespace, AllInk,
}

abbrev pub IsDigits : Text → Type 0
IsDigits [] = Unit {0}
IsDigits (c ∷ cs) = (b'0' ≤ c) × (c ≤ b'9') × IsDigits cs

decimal_from-IsDigits :
    (fuel n : ℕ) (digits : Text)
    → n < fuel
    → IsDigits digits
    → IsDigits (decimal_from fuel n digits)
unfolding decimal_from
decimal_from-IsDigits zero n digits h d = d
decimal_from-IsDigits (suc fuel) n digits h d = elim (Bool-cases (ltb n 10)) [
  | inl small ↦ rw small (ground arith)
  | inr large ↦ rw large (decimal_from-IsDigits fuel (n / 10) _ (ground arith) (ground arith))
]

pub parse_digits-decimal_from :
    (fuel n : ℕ) (digits : Text)
    → n < fuel
    → n < 2 ^ 64
    → parse_digits 0 (decimal_from fuel n digits) ≡ parse_digits n digits
unfolding decimal_from parse_digits
parse_digits-decimal_from zero n digits h w = absurd (omega arith)
parse_digits-decimal_from (suc fuel) n digits h w = elim (Bool-cases (ltb n 10)) [
  | inl small ↦ rw small (ground arith)
  | inr large ↦
      rw large (ground (arith, parse_digits-decimal_from fuel (n / 10) ((n % 10 + b'0') ∷ digits)))
]

decimal_from-is_empty :
    (fuel n : ℕ) (digits : Text) → n < fuel → is_empty (decimal_from fuel n digits) ≡ false
unfolding decimal_from
decimal_from-is_empty zero n digits h = absurd (omega arith)
decimal_from-is_empty (suc fuel) n digits h = elim (Bool-cases (ltb n 10)) [
  | inl small ↦ rw small refl
  | inr large ↦ rw large (decimal_from-is_empty fuel (n / 10) _ (ground arith))
]

pub decimal-IsDigits : (n : ℕ) → IsDigits (decimal n)
unfolding decimal
decimal-IsDigits n = decimal_from-IsDigits (n + 1) n [] (omega arith) tt

parse_u64-IsDigits : (s : Text) → is_empty s ≡ false → IsDigits s → parse_u64 s ≡ parse_digits 0 s
unfolding parse_u64
parse_u64-IsDigits [] h d = cc
parse_u64-IsDigits (c ∷ cs) h d = ground arith

pub decimal-is_empty : (n : ℕ) → is_empty (decimal n) ≡ false
unfolding decimal decimal_from
decimal-is_empty n = decimal_from-is_empty (n + 1) n [] (omega arith)

digits : (n : ℕ) → n < 2 ^ 64 → parse_digits 0 (decimal n) ≡ some n
unfolding decimal parse_digits
digits n w = parse_digits-decimal_from (n + 1) n [] (omega arith) w

pub parse_u64-decimal : (n : ℕ) → n < 2 ^ 64 → parse_u64 (decimal n) ≡ some n
parse_u64-decimal n w =
    parse_u64-IsDigits (decimal n) (decimal-is_empty n) (decimal-IsDigits n) ∙ digits n w

pub IsDigits-AllInk : (cs : Text) → IsDigits cs → AllInk cs
unfolding is_whitespace
IsDigits-AllInk [] d = tt
IsDigits-AllInk (c ∷ cs) d = (ground arith, IsDigits-AllInk cs (d.2))
