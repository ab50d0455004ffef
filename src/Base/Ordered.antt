-- ===== src/Base/Ordered.antt =====
-- A `BTreeSet` of numbers as the ascending list of its members: `insert`, `contains`,
-- `range(a..=b).count()` and `split_off`.
use Prim.Native.Nat.{ℕ, zero, suc, ◌+◌, ◌-◌, ◌≤◌, ◌<◌}
use mathlib.Core.Path.{◌≡◌, refl, subst}
use mathlib.Core.Bool.{Bool, false, ◌&&◌, ◌||◌}
use mathlib.Core.List.{List, [], ◌∷◌}
use native.Mathlib.Omega.{arith}
use smart_fec_tunnel.Base.Tests.{ltb, leb, ◌==◌, if◌then◌else◌}
use smart_fec_tunnel.Base.Lists.{length}

unfoldable pub contains : ℕ → List ℕ → Bool
contains n [] = false
contains n (x ∷ xs) = n == x || contains n xs

unfoldable pub insert : ℕ → List ℕ → List ℕ
insert n [] = n ∷ []
insert n (x ∷ xs) = if ltb n x then n ∷ x ∷ xs else if n == x then x ∷ xs else x ∷ insert n xs

-- range((lo + 1)..=hi).count()
unfoldable pub count_between : ℕ → ℕ → List ℕ → ℕ
count_between lo hi [] = 0
count_between lo hi (x ∷ xs) = (if ltb lo x && leb x hi then 1 else 0) + count_between lo hi xs

-- The part that `split_off(&(k + 1))` returns: the members above `k`.
unfoldable pub split_above : ℕ → List ℕ → List ℕ
split_above k [] = []
split_above k (x ∷ xs) = if ltb k x then x ∷ split_above k xs else split_above k xs

-- Strictly ascending, every member above the bound.
abbrev pub IsAbove : ℕ → List ℕ → Type 0
IsAbove b [] = Unit {0}
IsAbove b (x ∷ xs) = (b < x) × IsAbove x xs

-- Every member at most the bound.
abbrev pub IsBelow : ℕ → List ℕ → Type 0
IsBelow b [] = Unit {0}
IsBelow b (x ∷ xs) = (x ≤ b) × IsBelow b xs

-- No member twice.
abbrev pub IsDistinct : List ℕ → Type 0
IsDistinct [] = Unit {0}
IsDistinct (x ∷ xs) = (contains x xs ≡ false) × IsDistinct xs

pub IsAbove-mono : (a b : ℕ) (xs : List ℕ) → a ≤ b → IsAbove b xs → IsAbove a xs
IsAbove-mono a b [] h v = tt
IsAbove-mono a b (x ∷ xs) h v = (omega arith, v.1)

pub IsBelow-mono : (a b : ℕ) (xs : List ℕ) → a ≤ b → IsBelow a xs → IsBelow b xs
IsBelow-mono a b [] h v = tt
IsBelow-mono a b (x ∷ xs) h v = (omega arith, IsBelow-mono a b xs h v.1)

pub insert-IsAbove : (b n : ℕ) (xs : List ℕ) → b < n → IsAbove b xs → IsAbove b (insert n xs)
unfolding insert
insert-IsAbove b n [] h v = (h, tt)
insert-IsAbove b n (x ∷ xs) h v = ground (arith, insert-IsAbove x n xs)

pub insert-IsBelow : (b n : ℕ) (xs : List ℕ) → n ≤ b → IsBelow b xs → IsBelow b (insert n xs)
unfolding insert
insert-IsBelow b n [] h v = (h, tt)
insert-IsBelow b n (x ∷ xs) h v = ground (arith, insert-IsBelow b n xs)

pub contains-insert : (m n : ℕ) (xs : List ℕ) → contains m (insert n xs) ≡ (m == n || contains m xs)
unfolding insert contains
contains-insert m n [] = refl
contains-insert m n (x ∷ xs) = ground (arith, contains-insert m n xs)

pub contains_above : (b m : ℕ) (xs : List ℕ) → IsAbove b xs → m ≤ b → contains m xs ≡ false
unfolding contains
contains_above b m [] v h = refl
contains_above b m (x ∷ xs) v h = ground (arith, contains_above x m xs v.1)

pub contains-split_above :
    (k m : ℕ) (xs : List ℕ) → contains m (split_above k xs) ≡ (ltb k m && contains m xs)
unfolding contains split_above
contains-split_above k m [] = ground arith
contains-split_above k m (x ∷ xs) = ground (arith, contains-split_above k m xs)

pub split_above-IsAbove :
    (k b : ℕ) (xs : List ℕ) → k ≤ b → IsAbove b xs → IsAbove b (split_above k xs)
unfolding split_above
split_above-IsAbove k b [] h v = tt
split_above-IsAbove k b (x ∷ xs) h v = ground (arith, split_above-IsAbove k x xs)

-- Above the cut, from any lower bound.
pub split_above-cut : (k b : ℕ) (xs : List ℕ) → IsAbove b xs → IsAbove k (split_above k xs)
unfolding split_above
split_above-cut k b [] v = tt
split_above-cut k b (x ∷ xs) v =
    ground (arith, split_above-cut k x xs v.1, split_above-IsAbove k x xs)

pub split_above-IsBelow : (k b : ℕ) (xs : List ℕ) → IsBelow b xs → IsBelow b (split_above k xs)
unfolding split_above
split_above-IsBelow k b [] v = tt
split_above-IsBelow k b (x ∷ xs) v = ground (arith, split_above-IsBelow k b xs v.1)

-- An ascending list in (lo, hi] has at most hi - lo members.
pub length_in_range :
    (lo hi : ℕ) (xs : List ℕ) → IsAbove lo xs → IsBelow hi xs → length xs ≤ hi - lo
length_in_range lo hi [] a b = omega arith
length_in_range lo hi (x ∷ xs) a b = omega (arith, length_in_range x hi xs a.1 b.1)

-- How many of lo + 1, …, lo + n the list lacks.
unfoldable pub count_absent : ℕ → ℕ → List ℕ → ℕ
count_absent lo zero xs = 0
count_absent lo (suc n) xs = (if contains (lo + n + 1) xs then 0 else 1) + count_absent lo n xs

count_between_zero : (lo : ℕ) (xs : List ℕ) → count_between lo lo xs ≡ 0
unfolding count_between
count_between_zero lo [] = refl
count_between_zero lo (x ∷ xs) = ground (arith, count_between_zero lo xs)

count_between-above :
    (b lo hi : ℕ) (xs : List ℕ) → IsAbove b xs → hi ≤ b → count_between lo hi xs ≡ 0
unfolding count_between
count_between-above b lo hi [] v h = refl
count_between-above b lo hi (x ∷ xs) v h = ground (arith, count_between-above x lo hi xs v.1)

count_between-suc :
    (b lo n : ℕ) (xs : List ℕ)
    → IsAbove b xs
    → count_between lo (lo + n + 1) xs
      ≡ (if contains (lo + n + 1) xs then 1 else 0) + count_between lo (lo + n) xs
unfolding count_between contains
count_between-suc b lo n [] v = ground arith
count_between-suc b lo n (x ∷ xs) v =
    ground (arith, count_between-suc x lo n xs v.1, contains_above x (lo + n + 1) xs v.1)

-- What an interval holds and what it lacks make up its length.
pub count_between-count_absent :
    (b lo n : ℕ) (xs : List ℕ)
    → IsAbove b xs
    → count_between lo (lo + n) xs + count_absent lo n xs ≡ n
unfolding count_absent
count_between-count_absent b lo zero xs v =
    let e : lo + zero ≡ lo = omega arith in rw e (omega (arith, count_between_zero lo xs))
count_between-count_absent b lo (suc n) xs v =
    let e : lo + suc n ≡ lo + n + 1 = omega arith in
    rw e (ground (arith, count_between-suc b lo n xs v, count_between-count_absent b lo n xs v))

-- The same over an interval given by its ends.
pub count_between-to :
    (b lo hi : ℕ) (xs : List ℕ)
    → IsAbove b xs
    → lo ≤ hi
    → count_between lo hi xs + count_absent lo (hi - lo) xs ≡ hi - lo
count_between-to b lo hi xs v h =
    let e : lo + (hi - lo) ≡ hi = omega arith in
    subst (λ k. count_between lo k xs + count_absent lo (hi - lo) xs ≡ hi - lo) e
      (count_between-count_absent b lo (hi - lo) xs v)
