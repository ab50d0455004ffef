-- ===== src/Base/Maps.antt =====
-- `HashMap` as an association list in order of insertion, over keys with a Boolean equality. No
-- code depends on the order: only `get`, `contains_key`, `insert`, `remove`, `len` and `retain`.
use Prim.Native.Nat.{ℕ, ◌+◌, ◌≤◌}
use mathlib.Core.Path.{◌≡◌, refl, subst}
use mathlib.Core.Logic.{◌↔◌}
use mathlib.Core.Bool.{Bool, true, false, ◌&&◌}
use mathlib.Core.Option.{Option, none, some}
use mathlib.Core.List.{List, [], ◌∷◌, ◌++◌}
use native.Mathlib.Omega.{arith}
use smart_fec_tunnel.Base.Tests.{◌==◌ as nat_same, ==_iff, if◌then◌else◌}
use smart_fec_tunnel.Base.Lists.{length}
use smart_fec_tunnel.Base.Bytes.{bytes_eq, bytes_eq_iff}

pub record Key {ℓ} (A : Type ℓ) : Type ℓ where
  pub same : A → A → Bool
  pub same_iff : (a b : A) → (same a b ≡ true) ↔ (a ≡ b)

instance abbrev pub nat_key : Key ℕ
nat_key = record { same = nat_same; same_iff = ==_iff }

instance abbrev pub byte_string_key : Key (List ℕ)
byte_string_key = record { same = bytes_eq; same_iff = bytes_eq_iff }

abbrev pub pair_same : ℕ × ℕ → ℕ × ℕ → Bool
pair_same a b = nat_same a.0 b.0 && nat_same a.1 b.1

pub pair_same_iff : (a b : ℕ × ℕ) → (pair_same a b ≡ true) ↔ (a ≡ b)
pair_same_iff a b = ground arith

instance abbrev pub pair_key : Key (ℕ × ℕ)
pair_key = record { same = pair_same; same_iff = pair_same_iff }

module _ {ℓ κ} {K : Type ℓ} {V : Type κ} ⦃e : Key K⦄ where
  unfoldable pub get : K → List (K × V) → Option V
  get k [] = none
  get k ((j, v) ∷ m) = if e.same k j then some v else get k m

  unfoldable pub contains_key : K → List (K × V) → Bool
  contains_key k [] = false
  contains_key k ((j, v) ∷ m) = if e.same k j then true else contains_key k m

  unfoldable pub insert : K → V → List (K × V) → List (K × V)
  insert k v [] = (k, v) ∷ []
  insert k v ((j, w) ∷ m) = if e.same k j then (k, v) ∷ m else (j, w) ∷ insert k v m

  unfoldable pub remove : K → List (K × V) → List (K × V)
  remove k [] = []
  remove k ((j, w) ∷ m) = if e.same k j then remove k m else (j, w) ∷ remove k m

  unfoldable pub retain : (V → Bool) → List (K × V) → List (K × V)
  retain p [] = []
  retain p ((j, w) ∷ m) = if p w then (j, w) ∷ retain p m else retain p m

  -- No key twice.
  abbrev pub HasDistinctKeys : List (K × V) → Type 0
  HasDistinctKeys [] = Unit {0}
  HasDistinctKeys ((j, w) ∷ m) = (contains_key j m ≡ false) × HasDistinctKeys m

pub same_refl {ℓ} : {K : Type ℓ} ⦃e : Key K⦄ (k : K) → e.same k k ≡ true
same_refl ⦃e⦄ k = (e.same_iff k k).1 refl

module _ {ℓ κ} {K : Type ℓ} {V : Type κ} ⦃e : Key K⦄ where
  pub get-insert :
      (j k : K) (v : V) (m : List (K × V))
      → get j (insert k v m) ≡ (if e.same j k then some v else get j m)
  unfolding get insert
  get-insert j k v [] = refl
  get-insert j k v ((i, w) ∷ m) =
      ground (arith, e.same_iff j k, e.same_iff k i, e.same_iff j i, get-insert j k v m)

  pub contains_key-insert :
      (j k : K) (v : V) (m : List (K × V))
      → contains_key j (insert k v m) ≡ (if e.same j k then true else contains_key j m)
  unfolding contains_key insert
  contains_key-insert j k v [] = refl
  contains_key-insert j k v ((i, w) ∷ m) =
      ground (arith, e.same_iff j k, e.same_iff k i, e.same_iff j i, contains_key-insert j k v m)

  pub get-remove :
      (j k : K) (m : List (K × V)) → get j (remove k m) ≡ (if e.same j k then none else get j m)
  unfolding get remove
  get-remove j k [] = ground arith
  get-remove j k ((i, w) ∷ m) =
      ground (arith, e.same_iff j k, e.same_iff k i, e.same_iff j i, get-remove j k m)

  pub contains_key-remove :
      (j k : K) (m : List (K × V))
      → contains_key j (remove k m) ≡ (if e.same j k then false else contains_key j m)
  unfolding contains_key remove
  contains_key-remove j k [] = ground arith
  contains_key-remove j k ((i, w) ∷ m) =
      ground (arith, e.same_iff j k, e.same_iff k i, e.same_iff j i, contains_key-remove j k m)

  pub contains_key-get : (k : K) (m : List (K × V)) → contains_key k m ≡ false → get k m ≡ none
  unfolding contains_key get
  contains_key-get k [] h = refl
  contains_key-get k ((i, w) ∷ m) h = ground (arith, contains_key-get k m)

  pub get-contains_key : (k : K) (m : List (K × V)) → get k m ≡ none → contains_key k m ≡ false
  unfolding contains_key get
  get-contains_key k [] h = refl
  get-contains_key k ((i, w) ∷ m) h = ground (arith, get-contains_key k m)

  pub remove_absent : (k : K) (m : List (K × V)) → contains_key k m ≡ false → remove k m ≡ m
  unfolding contains_key remove
  remove_absent k [] h = refl
  remove_absent k ((i, w) ∷ m) h = ground (arith, remove_absent k m)

  pub insert_absent :
      (k : K) (v : V) (m : List (K × V))
      → contains_key k m ≡ false
      → insert k v m ≡ m ++ (k, v) ∷ []
  unfolding contains_key insert
  insert_absent k v [] h = refl
  insert_absent k v ((i, w) ∷ m) h = ground (arith, insert_absent k v m)

  pub length-insert :
      (k : K) (v : V) (m : List (K × V))
      → length (insert k v m) ≡ (if contains_key k m then length m else length m + 1)
  unfolding contains_key insert
  length-insert k v [] = ground arith
  length-insert k v ((i, w) ∷ m) = ground (arith, length-insert k v m)

  pub length-remove-le : (k : K) (m : List (K × V)) → length (remove k m) ≤ length m
  unfolding remove
  length-remove-le k [] = omega arith
  length-remove-le k ((i, w) ∷ m) = ground (arith, length-remove-le k m)

  pub length-retain-le : (p : V → Bool) (m : List (K × V)) → length (retain p m) ≤ length m
  unfolding retain
  length-retain-le p [] = omega arith
  length-retain-le p ((i, w) ∷ m) = ground (arith, length-retain-le p m)

  pub contains_key-retain :
      (k : K) (p : V → Bool) (m : List (K × V))
      → contains_key k m ≡ false
      → contains_key k (retain p m) ≡ false
  unfolding contains_key retain
  contains_key-retain k p [] h = refl
  contains_key-retain k p ((i, w) ∷ m) h = ground (arith, contains_key-retain k p m)

  pub insert-HasDistinctKeys :
      (k : K) (v : V) (m : List (K × V)) → HasDistinctKeys m → HasDistinctKeys (insert k v m)
  unfolding contains_key insert
  insert-HasDistinctKeys k v [] d = (refl, tt)
  insert-HasDistinctKeys k v ((i, w) ∷ m) d = ground (
    arith,
    e.same_iff k i,
    e.same_iff i k,
    contains_key-insert i k v m,
    insert-HasDistinctKeys k v m d.1,
  )

  -- A new key at the end.
  pub push-HasDistinctKeys :
      (k : K) (v : V) (m : List (K × V))
      → contains_key k m ≡ false
      → HasDistinctKeys m
      → HasDistinctKeys (m ++ (k, v) ∷ [])
  push-HasDistinctKeys k v m h d =
      subst HasDistinctKeys (insert_absent k v m h) (insert-HasDistinctKeys k v m d)

  pub remove-HasDistinctKeys :
      (k : K) (m : List (K × V)) → HasDistinctKeys m → HasDistinctKeys (remove k m)
  unfolding contains_key remove
  remove-HasDistinctKeys k [] d = tt
  remove-HasDistinctKeys k ((i, w) ∷ m) d =
      ground (arith, e.same_iff k i, contains_key-remove i k m, remove-HasDistinctKeys k m d.1)

  pub retain-HasDistinctKeys :
      (p : V → Bool) (m : List (K × V)) → HasDistinctKeys m → HasDistinctKeys (retain p m)
  unfolding retain
  retain-HasDistinctKeys p [] d = tt
  retain-HasDistinctKeys p ((i, w) ∷ m) d =
      ground (arith, contains_key-retain i p m, retain-HasDistinctKeys p m d.1)

  -- In a map with distinct keys `retain` keeps exactly the entries that pass.
  pub get-retain :
      (k : K) (p : V → Bool) (m : List (K × V))
      → HasDistinctKeys m
      → get k (retain p m) ≡ elim (get k m) [ none ↦ none | some v ↦ if p v then some v else none ]
  unfolding get retain
  get-retain k p [] d = refl
  get-retain k p ((i, w) ∷ m) d = ground (
    arith,
    e.same_iff k i,
    contains_key-get i (retain p m),
    contains_key-retain i p m,
    get-retain k p m d.1,
  )
