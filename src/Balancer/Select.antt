-- ===== src/Balancer/Select.antt =====
-- Which upstream a connection is given.
use native.Mathlib.Nat.{mod-lt, mod-eq_of_lt, add-mod_right}
use smart_fec_tunnel.Base.{
  Result-cases, ℕ, zero, suc, ◌+◌, ◌-◌, ◌%◌, ◌≤◌, ◌<◌, ◌≡◌, refl, sym, ap, subst, ◌∙◌, ◌⊎◌, inl,
  inr, Bool, true, false, not, ◌&&◌, leb, ◌==◌, Bool-cases, Option, none, Option-cases, some, List,
  [], ◌∷◌, length, set, length-set, get_elem?-set_self, ok, err, IsErr, is_err, arith,
}
use smart_fec_tunnel.Balancer.{
  SocksError, Bytes, Upstream, socks_connect, Health, Chosen, is_healthy, try_all, rotation, choose,
}

abbrev AllBelow : ℕ → List ℕ → Type 0
AllBelow n [] = Unit {0}
AllBelow n (i ∷ is) = (i < n) × AllBelow n is

abbrev IsIn : ℕ → List ℕ → Type 0
IsIn i [] = ⊥
IsIn i (j ∷ js) = (i ≡ j) ⊎ IsIn i js

rotation-AllBelow : (start n offset more : ℕ) → 0 < n → AllBelow n (rotation start n offset more)
unfolding rotation
rotation-AllBelow start n offset zero h = tt
rotation-AllBelow start n offset (suc more) h =
    (mod-lt (start + offset) h, rotation-AllBelow start n (offset + 1) more h)

rotation-IsIn :
    (start n offset more k : ℕ)
    → offset ≤ k
    → k < offset + more
    → IsIn ((start + k) % n) (rotation start n offset more)
unfolding rotation
rotation-IsIn start n offset zero k l h = absurd (omega arith)
rotation-IsIn start n offset (suc more) k l h = elim (Bool-cases (k == offset)) [
  | inl here ↦ let e : k ≡ offset = ground arith in inl (ap (λ j. (start + j) % n) e)
  | inr later ↦ inr (rotation-IsIn start n (offset + 1) more k (ground arith) (ground arith))
]

-- Every index occurs.
rotation_complete : (start n i : ℕ) → start < n → i < n → IsIn i (rotation start n 0 n)
rotation_complete start n i s h = elim (Bool-cases (leb start i)) [
  | inl above ↦
      let e : start + (i - start) ≡ i = ground arith in
      let m : (start + (i - start)) % n ≡ i = ap (λ j. j % n) e ∙ mod-eq_of_lt h in
      subst (λ j. IsIn j (rotation start n 0 n)) m
        (rotation-IsIn start n 0 n (i - start) (omega arith) (ground arith))
  | inr below ↦
      let e : start + (i + n - start) ≡ i + n = ground arith in
      let m : (start + (i + n - start)) % n ≡ i =
        ap (λ j. j % n) e ∙ (add-mod_right i n ∙ mod-eq_of_lt h) in
      subst (λ j. IsIn j (rotation start n 0 n)) m
        (rotation-IsIn start n 0 n (i + n - start) (omega arith) (ground arith))
]

-- The upstream at `i` does not take the request.
abbrev pub Fails : (ℕ → Upstream) → Bytes → ℕ → Type 0
Fails network request i = IsErr (socks_connect (network i) request)

-- The choice is an upstream that answered, and is marked healthy.
abbrev pub Answered : (ℕ → Upstream) → Bytes → Health → Chosen → Type 0
Answered network request after c =
    (c.index < length after)
    × (socks_connect (network c.index) request ≡ ok (c.response, c.remote))
    × (is_healthy after c.index ≡ true)

is_healthy-set_self : (h : Health) (i : ℕ) (b : Bool) → i < length h → is_healthy (set h i b) i ≡ b
is_healthy-set_self h i b l = rw (is_healthy, get_elem?-set_self h i b l) refl

is_healthy-set-false :
    (h : Health) (i j : ℕ) → is_healthy h j ≡ false → is_healthy (set h i false) j ≡ false
is_healthy-set-false [] i j l = refl
is_healthy-set-false (f ∷ h) zero zero l = refl
is_healthy-set-false (f ∷ h) zero (suc j) l = l
is_healthy-set-false (f ∷ h) (suc i) zero l = l
is_healthy-set-false (f ∷ h) (suc i) (suc j) l = is_healthy-set-false h i j l

module _ (network : ℕ → Upstream) (request : Bytes) where
  -- What holds after an index that is skipped, one that answers and one that fails, holds after
  -- the attempt at an index.
  try_all-step :
      (P : Health × Option Chosen × Option SocksError → Type 0) (healthy_only : Bool) (i : ℕ)
      (is : List ℕ) (h : Health) (last : Option SocksError)
      → (healthy_only ≡ true → P (try_all network request healthy_only is h last))
      → ((a : Bytes × Bytes)
          → socks_connect (network i) request ≡ ok a
          → P (set h i true, some (record { index = i; response = a.0; remote = a.1 }), last))
      → ((e : SocksError)
          → socks_connect (network i) request ≡ err e
          → P (try_all network request healthy_only is (set h i false) (some e)))
      → P (try_all network request healthy_only (i ∷ is) h last)
  unfolding try_all
  try_all-step P healthy_only i is h last skip hit miss =
      elim (Bool-cases (healthy_only && not (is_healthy h i))) [
        | inl skipped ↦ rw (try_all, skipped) (skip (ground arith))
        | inr tried ↦ elim (Result-cases (socks_connect (network i) request)) [
          | inl (a, e) ↦ rw (try_all, tried, e) (hit a e)
          | inr (why, e) ↦ rw (try_all, tried, e) (miss why e)
        ]
      ]

  length-try_all :
      (healthy_only : Bool) (is : List ℕ) (h : Health) (last : Option SocksError)
      → length ((try_all network request healthy_only is h last).0) ≡ length h
  unfolding try_all
  length-try_all healthy_only [] h last = refl
  length-try_all healthy_only (i ∷ is) h last =
      try_all-step (λ r. length (r.0) ≡ length h) healthy_only i is h last
        (λ s. length-try_all healthy_only is h last) (λ a e. length-set h i true)
        (λ e f. length-try_all healthy_only is (set h i false) (some e) ∙ length-set h i false)

  try_all-some :
      (healthy_only : Bool) (is : List ℕ) (h : Health) (last : Option SocksError) (c : Chosen)
      → AllBelow (length h) is
      → (try_all network request healthy_only is h last).1 ≡ some c
      → Answered network request ((try_all network request healthy_only is h last).0) c
  unfolding try_all
  try_all-some healthy_only [] h last c b = λ e. cc
  try_all-some healthy_only (i ∷ is) h last c b =
      try_all-step (λ r. r.1 ≡ some c → Answered network request (r.0) c) healthy_only i is h last
        (λ s. try_all-some healthy_only is h last c (b.1))
        (λ a e f.
          let g : record { index = i; response = a.0; remote = a.1 } ≡ c = ground arith in
          subst (Answered network request (set h i true)) g (
            subst (λ n. i < n) (sym (length-set h i true)) (b.0),
            e,
            is_healthy-set_self h i true (b.0),
          ))
        (λ e f.
          try_all-some healthy_only is (set h i false) (some e) c
            (subst (λ n. AllBelow n is) (sym (length-set h i false)) (b.1)))

  try_all-false :
      (is : List ℕ) (h : Health) (last : Option SocksError) (i : ℕ)
      → (try_all network request false is h last).1 ≡ none
      → is_healthy h i ≡ false
      → is_healthy ((try_all network request false is h last).0) i ≡ false
  unfolding try_all
  try_all-false [] h last i = λ n f. f
  try_all-false (j ∷ is) h last i =
      try_all-step (λ r. r.1 ≡ none → is_healthy h i ≡ false → is_healthy (r.0) i ≡ false) false j
        is h last (λ s. cc) (λ a e n f. cc)
        (λ e g n f. try_all-false is (set h j false) (some e) i n (is_healthy-set-false h j i f))

  try_all-none :
      (is : List ℕ) (h : Health) (last : Option SocksError) (i : ℕ)
      → AllBelow (length h) is
      → IsIn i is
      → (try_all network request false is h last).1 ≡ none
      → Fails network request i
        × (is_healthy ((try_all network request false is h last).0) i ≡ false)
  unfolding try_all
  try_all-none [] h last i b m = absurd m
  try_all-none (j ∷ is) h last i b m =
      try_all-step (λ r. r.1 ≡ none → Fails network request i × (is_healthy (r.0) i ≡ false)) false
        j is h last (λ s. cc) (λ a e n. cc)
        (λ e g n. elim m [
          | inl here ↦ (
            subst (Fails network request) (sym here) (subst IsErr (sym g) (is_err e)),
            try_all-false is (set h j false) (some e) i n (
                subst (λ k. is_healthy (set h j false) k ≡ false) (sym here)
                  (is_healthy-set_self h j false (b.0))),
          )
          | inr later ↦
              try_all-none is (set h j false) (some e) i
                (subst (λ n. AllBelow n is) (sym (length-set h j false)) (b.1)) later n
        ])

-- What the balancer makes of a request: it serves it from an upstream that answered in one of the
-- passes, or no upstream took it in the second pass and all are marked as not healthy.
abbrev pub Outcome : (Bool → ℕ → Upstream) → Bytes → Health → Option Chosen → Type 0
Outcome network request after (some c) = (pass : Bool) × Answered (network pass) request after c
Outcome network request after none =
    (i : ℕ) → i < length after → Fails (network false) request i × (is_healthy after i ≡ false)

-- Whatever the flags are, from any start among the upstreams, the balancer chooses an upstream that
-- answered the request, with that answer, and marks it healthy; it chooses none only if each
-- upstream failed in the second pass, and then all are marked unhealthy. The number of flags stays.
pub choose_lem :
    (network : Bool → ℕ → Upstream) (request : Bytes) (start : ℕ) (health : Health)
    → start < length health
    → let r = choose network request start health in
      (length (r.0) ≡ length health) × Outcome network request (r.0) (r.1)
unfolding choose
choose_lem network request start health s =
    let n = length health in
    let order = rotation start n 0 n in
    let first = try_all (network true) request true order health none in
    let below = rotation-AllBelow start n 0 n (omega arith) in
    let size = length-try_all (network true) request true order health none in
    elim (Option-cases (first.1)) [
      | inr (c, e) ↦
          rw (choose, e)
            (size, (true, try_all-some (network true) request true order health none c below e))
      | inl e ↦
          let second = try_all (network false) request false order (first.0) (first.2) in
          let size2 = length-try_all (network false) request false order (first.0) (first.2) in
          let below2 = subst (λ m. AllBelow m order) (sym size) below in
          elim (Option-cases (second.1)) [
            | inr (c, f) ↦
                rw (choose, e, f)
                  (
                    size2 ∙ size,
                    (
                      false,
                      try_all-some (network false) request false order (first.0) (first.2) c below2
                          f,
                    ),
                  )
            | inl f ↦
                rw (choose, e, f)
                  (
                    size2 ∙ size,
                    λ i h.
                        try_all-none (network false) request order (first.0) (first.2) i below2
                          (rotation_complete start n i s (subst (λ m. i < m) (size2 ∙ size) h)) f,
                  )
          ]
    ]
