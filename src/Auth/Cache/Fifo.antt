-- ===== src/Auth/Cache/Fifo.antt =====
-- The replay cache is a bounded queue: on every reachable state the map and the queue hold the
-- same entries, no nonce twice, and a call is a few list operations on that one list.
use smart_fec_tunnel.Base.{
  ℕ, suc, ◌≤◌, ◌<◌, ◌≡◌, refl, Bool, true, false, ltb, leb, if◌then◌else◌, List, [], ◌∷◌, ◌++◌,
  length, length-append, ok, inl, inr, Bool-cases, arith,
}
use smart_fec_tunnel.Base.Maps.{
  byte_string_key, get, contains_key, remove, HasDistinctKeys, remove_absent, insert_absent,
  push-HasDistinctKeys,
}
use smart_fec_tunnel.Base.Bytes.{bytes_eq_refl}
use smart_fec_tunnel.Auth.Cache.{
  Nonce, ReplayCache, new, forget, expire, evict, expiry, check_and_insert,
}

pub record IsValid (c : ReplayCache) : Type 0 where
  pub positive : 0 < c.capacity
  pub coherent : c.entries ≡ c.order
  pub distinct : HasDistinctKeys c.order
  pub bounded : length c.order ≤ c.capacity

-- Drops the expired entries at the front.
unfoldable pub drop_expired : ℕ → List (Nonce × ℕ) → List (Nonce × ℕ)
drop_expired now [] = []
drop_expired now ((n, t) ∷ q) = if ltb now t then (n, t) ∷ q else drop_expired now q

-- Drops entries at the front until fewer than `cap` are left.
unfoldable pub trim : ℕ → List (Nonce × ℕ) → List (Nonce × ℕ)
trim cap [] = []
trim cap (e ∷ q) = if leb cap (suc (length q)) then trim cap q else e ∷ q

forget_front :
    (n : Nonce) (t : ℕ) (q : List (Nonce × ℕ))
    → contains_key n q ≡ false
    → forget n t ((n, t) ∷ q) ≡ q
unfolding forget get remove
forget_front n t q h = ground (arith, bytes_eq_refl n, remove_absent n q h)

expire_lem :
    (now : ℕ) (q : List (Nonce × ℕ))
    → HasDistinctKeys q
    → expire now q q ≡ (drop_expired now q, drop_expired now q)
unfolding expire drop_expired
expire_lem now [] d = refl
expire_lem now ((n, t) ∷ q) d = rw (forget_front n t q d.0, expire_lem now q d.1) (ground arith)

evict_lem :
    (cap : ℕ) (q : List (Nonce × ℕ)) → HasDistinctKeys q → evict cap q q ≡ (trim cap q, trim cap q)
unfolding evict trim
evict_lem cap [] d = refl
evict_lem cap ((n, t) ∷ q) d = rw (forget_front n t q d.0, evict_lem cap q d.1) (ground arith)

pub drop_expired-HasDistinctKeys :
    (now : ℕ) (q : List (Nonce × ℕ)) → HasDistinctKeys q → HasDistinctKeys (drop_expired now q)
unfolding drop_expired
drop_expired-HasDistinctKeys now [] d = tt
drop_expired-HasDistinctKeys now ((n, t) ∷ q) d =
    ground (arith, drop_expired-HasDistinctKeys now q d.1)

trim-HasDistinctKeys :
    (cap : ℕ) (q : List (Nonce × ℕ)) → HasDistinctKeys q → HasDistinctKeys (trim cap q)
unfolding trim
trim-HasDistinctKeys cap [] d = tt
trim-HasDistinctKeys cap ((n, t) ∷ q) d = ground (arith, trim-HasDistinctKeys cap q d.1)

trim-contains_key :
    (cap : ℕ) (n : Nonce) (q : List (Nonce × ℕ))
    → contains_key n q ≡ false
    → contains_key n (trim cap q) ≡ false
unfolding trim contains_key
trim-contains_key cap n [] h = refl
trim-contains_key cap n ((m, t) ∷ q) h = ground (arith, trim-contains_key cap n q)

length-trim : (cap : ℕ) (q : List (Nonce × ℕ)) → 0 < cap → length (trim cap q) < cap
unfolding trim
length-trim cap [] h = omega arith
length-trim cap ((m, t) ∷ q) h = ground (arith, length-trim cap q h)

length-drop_expired-le : (now : ℕ) (q : List (Nonce × ℕ)) → length (drop_expired now q) ≤ length q
unfolding drop_expired
length-drop_expired-le now [] = omega arith
length-drop_expired-le now ((m, t) ∷ q) = ground (arith, length-drop_expired-le now q)

-- The queue after a call, and whether the nonce was new.
unfoldable pub push_nonce : ℕ → List (Nonce × ℕ) → Nonce → ℕ → ℕ → List (Nonce × ℕ) × Bool
push_nonce cap q nonce now window_secs =
    let live : List (Nonce × ℕ) = drop_expired now q in
    if contains_key nonce live
    then (live, false)
    else (trim cap live ++ (nonce, expiry now window_secs) ∷ [], true)

-- On a valid cache one call is: drop the expired nonces at the front of the queue; refuse a nonce
-- that is left in it; otherwise make room at the front and append the nonce. The map and the
-- queue stay equal.
pub check_and_insert-push_nonce :
    (c : ReplayCache) (nonce : Nonce) (now window_secs : ℕ)
    → IsValid c
    → let (q, fresh) = push_nonce c.capacity c.order nonce now window_secs in
      check_and_insert c nonce now window_secs ≡ (record c { entries = q; order = q }, fresh)
unfolding check_and_insert push_nonce
check_and_insert-push_nonce c nonce now window_secs v =
    let live : List (Nonce × ℕ) = drop_expired now c.order in
    let d = drop_expired-HasDistinctKeys now c.order v.distinct in
    rw (v.coherent, expire_lem now c.order v.distinct, evict_lem c.capacity live d)
      (ground (
        arith,
        trim-contains_key c.capacity nonce live,
        insert_absent nonce (expiry now window_secs) (trim c.capacity live),
      ))

pub new-IsValid : (cap : ℕ) {c : ReplayCache} → new cap ≡ ok c → IsValid c × (c.capacity ≡ cap)
unfolding new
new-IsValid cap e = ground arith

push_nonce-IsValid :
    (c : ReplayCache) (nonce : Nonce) (now window_secs : ℕ)
    → IsValid c
    → let (q, fresh) = push_nonce c.capacity c.order nonce now window_secs in
      HasDistinctKeys q × (length q ≤ c.capacity)
unfolding push_nonce
push_nonce-IsValid c nonce now window_secs v =
    let live : List (Nonce × ℕ) = drop_expired now c.order in
    let t = expiry now window_secs in
    let d = drop_expired-HasDistinctKeys now c.order v.distinct in
    elim (Bool-cases (contains_key nonce live)) [
      | inl old ↦ rw (push_nonce, old) (d, omega (arith, length-drop_expired-le now c.order))
      | inr new ↦
          rw (push_nonce, new)
            (
              push-HasDistinctKeys nonce t (trim c.capacity live)
                  (trim-contains_key c.capacity nonce live new)
                  (trim-HasDistinctKeys c.capacity live d),
              omega (
                arith,
                length-append (trim c.capacity live) ((nonce, t) ∷ []),
                length-trim c.capacity live v.positive,
              ),
            )
    ]

-- Every call keeps the cache valid: the map and the queue hold the same nonces, none twice, and
-- never more than the capacity.
pub check_and_insert-IsValid :
    (c : ReplayCache) (nonce : Nonce) (now window_secs : ℕ)
    → IsValid c
    → IsValid (check_and_insert c nonce now window_secs).0
check_and_insert-IsValid c nonce now window_secs v =
    let (d, b) = push_nonce-IsValid c nonce now window_secs v in
    rw (check_and_insert-push_nonce c nonce now window_secs v)
      (record { positive = v.positive; coherent = refl; distinct = d; bounded = b })
