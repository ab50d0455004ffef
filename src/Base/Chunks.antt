-- ===== src/Base/Chunks.antt =====
-- Cutting a payload into chunks and collecting the chunks again, which the QUIC carrier and the
-- FEC decoder both do: `chunks`, `div_ceil`, and the `Vec<Option<Vec<u8>>>` of received parts.
use Prim.Native.Nat.{ℕ, zero, suc, ◌+◌, ◌-◌, ◌/◌, ◌≤◌, ◌<◌}
use mathlib.Core.Path.{◌≡◌, refl, sym, ap, ◌∙◌}
use mathlib.Core.Logic.{◌⊎◌, inl, inr}
use mathlib.Core.Bool.{Bool, true, false}
use mathlib.Core.Option.{Option, none, some}
use mathlib.Core.List.{List, [], ◌∷◌, ◌++◌}
use native.Mathlib.Omega.{arith}
use native.Mathlib.Decide.{dec_lt}
use smart_fec_tunnel.Base.Lists.{
  length, get_elem?, set, take, drop, replicate, concat, length-drop, take-append-drop,
}

-- `xs.chunks(n)`, on fuel: `length xs` rounds are enough if n is not 0.
unfoldable pub chunks_from : ℕ → ℕ → List ℕ → List (List ℕ)
chunks_from zero n xs = []
chunks_from (suc fuel) n [] = []
chunks_from (suc fuel) n (x ∷ xs) = take n (x ∷ xs) ∷ chunks_from fuel n (drop n (x ∷ xs))

unfoldable pub chunks : ℕ → List ℕ → List (List ℕ)
unfolding chunks_from
chunks n xs = chunks_from (length xs) n xs

-- usize::div_ceil
abbrev pub div_ceil : ℕ → ℕ → ℕ
div_ceil a b = (a + b - 1) / b

concat-chunks_from :
    (fuel n : ℕ) (xs : List ℕ) → 0 < n → length xs ≤ fuel → concat (chunks_from fuel n xs) ≡ xs
unfolding chunks_from
concat-chunks_from zero n [] p h = refl
concat-chunks_from zero n (x ∷ xs) p h = absurd (omega arith)
concat-chunks_from (suc fuel) n [] p h = refl
concat-chunks_from (suc fuel) n (x ∷ xs) p h =
    rw (concat-chunks_from fuel n (drop n (x ∷ xs)) p (omega (arith, length-drop n (x ∷ xs))))
      (take-append-drop n (x ∷ xs))

-- The chunks make up the payload.
pub concat-chunks : (n : ℕ) (xs : List ℕ) → 0 < n → concat (chunks n xs) ≡ xs
unfolding chunks
concat-chunks n xs p = concat-chunks_from (length xs) n xs p (omega arith)

div_small : (m n : ℕ) → m < n → m / n ≡ 0
div_small m n h = grind arith

div_step : (m n : ℕ) → 0 < n → (m + n) / n ≡ suc (m / n)
div_step m n p = grind arith

-- One round of `div_ceil`.
div_ceil-step : (a n : ℕ) → 0 < n → 0 < a → div_ceil a n ≡ suc (div_ceil (a - n) n)
div_ceil-step a n p h = elim (dec_lt n a) [
  | yes more ↦
      let e : a - n + n - 1 ≡ a - 1 = omega arith in
      let d : a + n - 1 ≡ a - 1 + n = omega arith in rw (e, d) (div_step (a - 1) n p)
  | no last ↦
      let e : a - n + n - 1 ≡ n - 1 = omega arith in
      let d : a + n - 1 ≡ a - 1 + n = omega arith in
      rw (
        e,
        d,
        div_step (a - 1) n p,
        div_small (a - 1) n (omega arith),
        div_small (n - 1) n (omega arith),
      )
]

length-chunks_from :
    (fuel n : ℕ) (xs : List ℕ)
    → 0 < n
    → length xs ≤ fuel
    → length (chunks_from fuel n xs) ≡ div_ceil (length xs) n
unfolding chunks_from
length-chunks_from zero n [] p h = sym (div_small (0 + n - 1) n (omega arith))
length-chunks_from (suc fuel) n [] p h = sym (div_small (0 + n - 1) n (omega arith))
length-chunks_from zero n (x ∷ xs) p h = absurd (omega arith)
length-chunks_from (suc fuel) n (x ∷ xs) p h =
    ap suc (
      length-chunks_from fuel n (drop n (x ∷ xs)) p (omega (arith, length-drop n (x ∷ xs)))
      ∙ ap (λ k. div_ceil k n) (length-drop n (x ∷ xs)))
    ∙ sym (div_ceil-step (suc (length xs)) n p (omega arith))

pub length-chunks : (n : ℕ) (xs : List ℕ) → 0 < n → length (chunks n xs) ≡ div_ceil (length xs) n
unfolding chunks
length-chunks n xs p = length-chunks_from (length xs) n xs p (omega arith)

-- `parts.iter().all(Option::is_some)`
unfoldable pub is_complete : List (Option (List ℕ)) → Bool
is_complete [] = true
is_complete (none ∷ ps) = false
is_complete (some p ∷ ps) = is_complete ps

-- The concatenation of the parts that are there.
unfoldable pub join : List (Option (List ℕ)) → List ℕ
join [] = []
join (none ∷ ps) = join ps
join (some p ∷ ps) = p ++ join ps

-- Each part is missing or is the chunk at its place.
abbrev pub Fits : List (Option (List ℕ)) → List (List ℕ) → Type 0
Fits [] [] = Unit {0}
Fits [] (c ∷ cs) = ⊥
Fits (p ∷ ps) [] = ⊥
Fits (p ∷ ps) (c ∷ cs) = ((p ≡ none) ⊎ (p ≡ some c)) × Fits ps cs

pub Fits-length :
    (ps : List (Option (List ℕ))) (cs : List (List ℕ)) → Fits ps cs → length ps ≡ length cs
Fits-length [] [] f = refl
Fits-length [] (c ∷ cs) f = absurd f
Fits-length (p ∷ ps) [] f = absurd f
Fits-length (p ∷ ps) (c ∷ cs) f = ap suc (Fits-length ps cs f.1)

pub Fits-replicate : (cs : List (List ℕ)) → Fits (replicate (length cs) none) cs
Fits-replicate [] = tt
Fits-replicate (c ∷ cs) = (inl refl, Fits-replicate cs)

pub Fits-set :
    (ps : List (Option (List ℕ))) (cs : List (List ℕ)) (i : ℕ) (c : List ℕ)
    → Fits ps cs
    → get_elem? cs i ≡ some c
    → Fits (set ps i (some c)) cs
Fits-set [] cs i c f h = f
Fits-set (p ∷ ps) [] i c f h = absurd f
Fits-set (p ∷ ps) (d ∷ cs) zero c f h = (inr (ground arith), f.1)
Fits-set (p ∷ ps) (d ∷ cs) (suc i) c f h = (f.0, Fits-set ps cs i c f.1 h)

-- Complete parts that fit the chunks join to their concatenation.
pub join-Fits :
    (ps : List (Option (List ℕ))) (cs : List (List ℕ))
    → Fits ps cs
    → is_complete ps ≡ true
    → join ps ≡ concat cs
unfolding is_complete join
join-Fits [] [] f h = refl
join-Fits [] (c ∷ cs) f h = absurd f
join-Fits (p ∷ ps) [] f h = absurd f
join-Fits (none ∷ ps) (c ∷ cs) f h = absurd (ground arith)
join-Fits (some p ∷ ps) (c ∷ cs) f h = ground (arith, join-Fits ps cs f.1)
