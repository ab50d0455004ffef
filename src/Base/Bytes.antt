-- ===== src/Base/Bytes.antt =====
-- Byte strings as lists of numbers: `to_be_bytes`, `from_be_bytes`, slices and equality. A slice
-- is taken only where the code has checked the length, so the model needs no panic.
use Prim.Native.Nat.{ℕ, zero, suc, ◌+◌, ◌-◌, ◌*◌, ◌/◌, ◌%◌, ◌^◌, ◌≤◌, ◌<◌}
use mathlib.Core.Path.{◌≡◌, refl, ap, subst, ◌∙◌}
use mathlib.Core.Logic.{◌↔◌}
use mathlib.Core.Bool.{Bool, true, false, ◌&&◌}
use mathlib.Core.List.{List, [], ◌∷◌, ◌++◌}
use native.Mathlib.Omega.{arith}
use native.Mathlib.Nat.{pow-suc}
use smart_fec_tunnel.Base.Tests.{◌==◌}
use smart_fec_tunnel.Base.Lists.{length, take, drop, length-append, length-take, length-drop}

-- The low `n` bytes of a number, most significant first (`to_be_bytes` of an 8n-bit integer).
unfoldable pub be : ℕ → ℕ → List ℕ
be zero v = []
be (suc n) v = be n (v / 256) ++ (v % 256) ∷ []

unfoldable pub from_be_acc : ℕ → List ℕ → ℕ
from_be_acc acc [] = acc
from_be_acc acc (x ∷ xs) = from_be_acc (acc * 256 + x) xs

-- from_be_bytes
unfoldable pub from_be : List ℕ → ℕ
unfolding from_be_acc
from_be xs = from_be_acc 0 xs

-- buf[a..b]
abbrev pub slice : ℕ → ℕ → List ℕ → List ℕ
slice a b xs = take (b - a) (drop a xs)

-- buf[i], where the length is checked
abbrev pub byte_at : ℕ → List ℕ → ℕ
byte_at i [] = 0
byte_at zero (x ∷ xs) = x
byte_at (suc i) (x ∷ xs) = byte_at i xs

unfoldable pub bytes_eq : List ℕ → List ℕ → Bool
bytes_eq [] [] = true
bytes_eq [] (y ∷ ys) = false
bytes_eq (x ∷ xs) [] = false
bytes_eq (x ∷ xs) (y ∷ ys) = x == y && bytes_eq xs ys

-- Every element is a byte.
abbrev pub IsBytes : List ℕ → Type 0
IsBytes [] = Unit {0}
IsBytes (x ∷ xs) = (x < 256) × IsBytes xs

pub bytes_eq→eq : (xs ys : List ℕ) → bytes_eq xs ys ≡ true → xs ≡ ys
unfolding bytes_eq
bytes_eq→eq [] [] h = refl
bytes_eq→eq [] (y ∷ ys) h = cc
bytes_eq→eq (x ∷ xs) [] h = cc
bytes_eq→eq (x ∷ xs) (y ∷ ys) h = ground (arith, bytes_eq→eq xs ys)

pub bytes_eq_refl : (xs : List ℕ) → bytes_eq xs xs ≡ true
unfolding bytes_eq
bytes_eq_refl [] = refl
bytes_eq_refl (x ∷ xs) = ground (arith, bytes_eq_refl xs)

pub bytes_eq_iff : (xs ys : List ℕ) → (bytes_eq xs ys ≡ true) ↔ (xs ≡ ys)
bytes_eq_iff xs ys = (bytes_eq→eq xs ys, λ e. rw e (bytes_eq_refl ys))

pub length-be : (n v : ℕ) → length (be n v) ≡ n
unfolding be
length-be zero v = refl
length-be (suc n) v =
    omega (arith, length-append (be n (v / 256)) ((v % 256) ∷ []), length-be n (v / 256))

from_be_acc-snoc :
    (acc x : ℕ) (xs : List ℕ) → from_be_acc acc (xs ++ x ∷ []) ≡ from_be_acc acc xs * 256 + x
unfolding from_be_acc
from_be_acc-snoc acc x [] = refl
from_be_acc-snoc acc x (y ∷ xs) = from_be_acc-snoc (acc * 256 + y) x xs

-- Reading back what was written gives the number modulo its width.
pub from_be-be : (n v : ℕ) → v < 256 ^ n → from_be (be n v) ≡ v
unfolding be from_be
from_be-be zero v h = omega arith
from_be-be (suc n) v h =
    from_be_acc-snoc 0 (v % 256) (be n (v / 256))
    ∙ omega (arith, from_be-be n (v / 256) (omega (arith, pow-suc 256 n)))

IsBytes-append : (xs ys : List ℕ) → IsBytes xs → IsBytes ys → IsBytes (xs ++ ys)
IsBytes-append [] ys a b = b
IsBytes-append (x ∷ xs) ys a b = (a.0, IsBytes-append xs ys a.1 b)

pub be-IsBytes : (n v : ℕ) → IsBytes (be n v)
unfolding be
be-IsBytes zero v = tt
be-IsBytes (suc n) v =
    IsBytes-append (be n (v / 256)) ((v % 256) ∷ []) (be-IsBytes n (v / 256)) (omega arith)

IsBytes-split : (xs ys : List ℕ) → IsBytes (xs ++ ys) → IsBytes xs × IsBytes ys
IsBytes-split [] ys b = (tt, b)
IsBytes-split (x ∷ xs) ys b = let (l, r) = IsBytes-split xs ys b.1 in ((b.0, l), r)

snoc_split :
    (n : ℕ) (xs : List ℕ)
    → length xs ≡ suc n
    → (ys : List ℕ) × (y : ℕ) × (xs ≡ ys ++ y ∷ []) × (length ys ≡ n)
snoc_split n [] h = absurd (omega arith)
snoc_split zero (x ∷ []) h = ([], x, refl, refl)
snoc_split zero (x ∷ y ∷ xs) h = absurd (omega arith)
snoc_split (suc n) (x ∷ xs) h =
    let (ys, y, e, l) = snoc_split n xs (omega arith) in (x ∷ ys, y, ap (◌∷◌ x) e, ap suc l)

-- Writing what was read gives the bytes again.
pub be-from_be : (n : ℕ) (xs : List ℕ) → length xs ≡ n → IsBytes xs → be n (from_be xs) ≡ xs
unfolding be from_be
be-from_be zero [] h b = refl
be-from_be zero (x ∷ xs) h b = absurd (omega arith)
be-from_be (suc n) xs h b =
    let (ys, y, e, l) = snoc_split n xs h in
    let bs : IsBytes ys × IsBytes (y ∷ []) = IsBytes-split ys (y ∷ []) (subst IsBytes e b) in
    let byte : y < 256 = bs.1.0 in
    let high : (from_be ys * 256 + y) / 256 ≡ from_be ys = omega arith in
    let low : (from_be ys * 256 + y) % 256 ≡ y = omega arith in
    rw (e, from_be_acc-snoc 0 y ys, high, low, be-from_be n ys l bs.0)

pub IsBytes-take : (n : ℕ) (xs : List ℕ) → IsBytes xs → IsBytes (take n xs)
IsBytes-take zero xs b = tt
IsBytes-take (suc n) [] b = tt
IsBytes-take (suc n) (x ∷ xs) b = (b.0, IsBytes-take n xs b.1)

pub IsBytes-drop : (n : ℕ) (xs : List ℕ) → IsBytes xs → IsBytes (drop n xs)
IsBytes-drop zero xs b = b
IsBytes-drop (suc n) [] b = tt
IsBytes-drop (suc n) (x ∷ xs) b = IsBytes-drop n xs b.1

-- A slice of one byte.
pub slice_byte : (i : ℕ) (xs : List ℕ) → i < length xs → take 1 (drop i xs) ≡ byte_at i xs ∷ []
slice_byte i [] h = absurd (omega arith)
slice_byte zero (x ∷ xs) h = refl
slice_byte (suc i) (x ∷ xs) h = slice_byte i xs (omega arith)

-- A big-endian field that is read and written again.
pub be-slice :
    (a b : ℕ) (xs : List ℕ)
    → a ≤ b
    → b ≤ length xs
    → IsBytes xs
    → be (b - a) (from_be (slice a b xs)) ≡ slice a b xs
be-slice a b xs h l bytes =
    be-from_be (b - a) (slice a b xs)
      (omega (arith, length-take (b - a) (drop a xs), length-drop a xs))
      (IsBytes-take (b - a) (drop a xs) (IsBytes-drop a xs bytes))

-- A byte and what follows it.
pub byte_cut : (i : ℕ) (xs : List ℕ) → i < length xs → drop i xs ≡ byte_at i xs ∷ drop (suc i) xs
byte_cut i [] h = absurd (omega arith)
byte_cut zero (x ∷ xs) h = refl
byte_cut (suc i) (x ∷ xs) h = byte_cut i xs (omega arith)
