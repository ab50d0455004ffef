-- ===== src/Auth/Cache/Replay.antt =====
-- A nonce that was accepted is refused until it expires, across any calls in between, as long as
-- those accept fewer new nonces than the cache holds.
use smart_fec_tunnel.Base.{
  ℕ, suc, ◌+◌, ◌≤◌, ◌<◌, ◌≡◌, refl, subst, ◌⊎◌, inl, inr, Bool, true, false, ltb, leb,
  if◌then◌else◌, Bool-cases, List, [], ◌∷◌, ◌++◌, length, length-append, arith,
}
use smart_fec_tunnel.Base.Maps.{byte_string_key, contains_key}
use smart_fec_tunnel.Base.Bytes.{bytes_eq_refl}
use smart_fec_tunnel.Auth.Cache.{Nonce, ReplayCache, expiry, check_and_insert}
use smart_fec_tunnel.Auth.Cache.Fifo.{
  IsValid, drop_expired, trim, push_nonce, check_and_insert-push_nonce, check_and_insert-IsValid,
}

pub record Call : Type 0 where
  pub nonce : Nonce
  pub now : ℕ
  pub window_secs : ℕ

abbrev pub call : ReplayCache → Call → ReplayCache × Bool
call c k = check_and_insert c k.nonce k.now k.window_secs

unfoldable pub run : ReplayCache → List Call → ReplayCache
run c [] = c
run c (k ∷ ks) = run (call c k).0 ks

-- How many of the calls accept their nonce.
unfoldable pub count_accepted : ReplayCache → List Call → ℕ
count_accepted c [] = 0
count_accepted c (k ∷ ks) = (if (call c k).1 then 1 else 0) + count_accepted (call c k).0 ks

-- Every call happens before the given time.
abbrev pub AllBefore : ℕ → List Call → Type 0
AllBefore t [] = Unit {0}
AllBefore t (k ∷ ks) = (k.now < t) × AllBefore t ks

-- The nonce is in the queue with this expiry, and at most `j` entries stand behind it.
abbrev Held : Nonce → ℕ → ℕ → List (Nonce × ℕ) → Type 0
Held n e j [] = ⊥
Held n e j ((m, t) ∷ q) = ((m ≡ n) × (t ≡ e) × (length q ≤ j)) ⊎ Held n e j q

Held-contains_key :
    (n : Nonce) (e j : ℕ) (q : List (Nonce × ℕ)) → Held n e j q → contains_key n q ≡ true
unfolding contains_key
Held-contains_key n e j [] h = absurd h
Held-contains_key n e j ((m, t) ∷ q) (inl h) = rw (h.0, bytes_eq_refl n)
Held-contains_key n e j ((m, t) ∷ q) (inr h) = ground (arith, Held-contains_key n e j q h)

Held-drop_expired :
    (n : Nonce) (e j now : ℕ) (q : List (Nonce × ℕ))
    → now < e
    → Held n e j q
    → Held n e j (drop_expired now q)
unfolding drop_expired
Held-drop_expired n e j now [] l h = h
Held-drop_expired n e j now ((m, t) ∷ q) l (inl h) =
    let alive : ltb now t ≡ true = ground arith in rw alive (inl h)
Held-drop_expired n e j now ((m, t) ∷ q) l (inr h) = elim (Bool-cases (ltb now t)) [
  | inl alive ↦ rw alive (inr h)
  | inr gone ↦ rw gone (Held-drop_expired n e j now q l h)
]

Held-trim :
    (n : Nonce) (e j cap : ℕ) (q : List (Nonce × ℕ))
    → j + 1 < cap
    → Held n e j q
    → Held n e j (trim cap q)
unfolding trim
Held-trim n e j cap [] l h = h
Held-trim n e j cap ((m, t) ∷ q) l (inl h) =
    let kept : leb cap (suc (length q)) ≡ false = ground arith in rw kept (inl h)
Held-trim n e j cap ((m, t) ∷ q) l (inr h) = elim (Bool-cases (leb cap (suc (length q)))) [
  | inl full ↦ rw full (Held-trim n e j cap q l h)
  | inr kept ↦ rw kept (inr h)
]

Held-push :
    (n : Nonce) (e j : ℕ) (x : Nonce × ℕ) (q : List (Nonce × ℕ))
    → Held n e j q
    → Held n e (j + 1) (q ++ x ∷ [])
Held-push n e j x [] h = absurd h
Held-push n e j x ((m, t) ∷ q) (inl h) = inl (h.0, h.1, omega (arith, length-append q (x ∷ [])))
Held-push n e j x ((m, t) ∷ q) (inr h) = inr (Held-push n e j x q h)

Held-self : (n : Nonce) (e : ℕ) (q : List (Nonce × ℕ)) → Held n e 0 (q ++ (n, e) ∷ [])
Held-self n e [] = inl (refl, refl, omega arith)
Held-self n e (x ∷ q) = inr (Held-self n e q)

-- The queue after a call that accepts its nonce ends with it.
push_nonce_fresh-Held :
    (c : ReplayCache) (n : Nonce) (now window_secs : ℕ)
    → (push_nonce c.capacity c.order n now window_secs).1 ≡ true
    → Held n (expiry now window_secs) 0 (push_nonce c.capacity c.order n now window_secs).0
unfolding push_nonce
push_nonce_fresh-Held c n now window_secs h =
    elim (Bool-cases (contains_key n (drop_expired now c.order))) [
      | inl old ↦ absurd (ground arith)
      | inr new ↦ rw new (Held-self n (expiry now window_secs) _)
    ]

-- A call before the expiry leaves the nonce in the queue, with one more entry behind it if the
-- call accepts a nonce.
push_nonce-Held :
    (n : Nonce) (e j cap : ℕ) (q : List (Nonce × ℕ)) (k : Call)
    → k.now < e
    → Held n e j q
    → let (r, fresh) = push_nonce cap q k.nonce k.now k.window_secs in
      j + (if fresh then 1 else 0) < cap → Held n e (j + (if fresh then 1 else 0)) r
unfolding push_nonce
push_nonce-Held n e j cap q k before h room =
    let live = Held-drop_expired n e j k.now q before h in
    elim (Bool-cases (contains_key k.nonce (drop_expired k.now q))) [
      | inl old ↦ rw old (subst (λ i. Held n e i (drop_expired k.now q)) (omega arith) live)
      | inr new ↦ rw new (
          Held-push n e j (k.nonce, expiry k.now k.window_secs) _
            (Held-trim n e j cap (drop_expired k.now q) (rw new at room) live))
    ]

pub call-Held :
    (n : Nonce) (e j : ℕ) (c : ReplayCache) (k : Call)
    → IsValid c
    → k.now < e
    → Held n e j c.order
    → j + (if (call c k).1 then 1 else 0) < c.capacity
    → Held n e (j + (if (call c k).1 then 1 else 0)) (call c k).0.order
call-Held n e j c k v before h room =
    let spec = check_and_insert-push_nonce c k.nonce k.now k.window_secs v in
    rw spec (push_nonce-Held n e j c.capacity c.order k before h (rw spec at room))

call-capacity : (c : ReplayCache) (k : Call) → IsValid c → (call c k).0.capacity ≡ c.capacity
call-capacity c k v = rw (check_and_insert-push_nonce c k.nonce k.now k.window_secs v)

run-Held :
    (n : Nonce) (e j : ℕ) (c : ReplayCache) (ks : List Call)
    → IsValid c
    → AllBefore e ks
    → Held n e j c.order
    → j + count_accepted c ks < c.capacity
    → IsValid (run c ks) × Held n e (j + count_accepted c ks) (run c ks).order
unfolding run count_accepted
run-Held n e j c [] v b h room = (v, subst (λ i. Held n e i c.order) (omega arith) h)
run-Held n e j c (k ∷ ks) v b h room =
    let i : ℕ = if (call c k).1 then 1 else 0 in
    let held = call-Held n e j c k v b.0 h (omega arith) in
    let valid = check_and_insert-IsValid c k.nonce k.now k.window_secs v in
    let (last, kept) =
      run-Held n e (j + i) (call c k).0 ks valid b.1 held (omega (arith, call-capacity c k v)) in
    (last, subst (λ m. Held n e m (run (call c k).0 ks).order) (omega arith) kept)

Held-refused :
    (n : Nonce) (e j : ℕ) (c : ReplayCache) (now window_secs : ℕ)
    → IsValid c
    → now < e
    → Held n e j c.order
    → (check_and_insert c n now window_secs).1 ≡ false
unfolding push_nonce
Held-refused n e j c now window_secs v soon h =
    let old =
      Held-contains_key n e j (drop_expired now c.order)
        (Held-drop_expired n e j now c.order soon h) in
    rw (check_and_insert-push_nonce c n now window_secs v, push_nonce, old)

-- Once a nonce was accepted by a valid cache, it is refused by every call before its expiry, after
-- any calls in between that also happen before it, if those accept fewer nonces than the
-- cache holds.
pub accepted_nonce_refused :
    (c : ReplayCache) (first again : Call) (ks : List Call)
    → IsValid c
    → (call c first).1 ≡ true
    → again.nonce ≡ first.nonce
    → AllBefore (expiry first.now first.window_secs) ks
    → again.now < expiry first.now first.window_secs
    → count_accepted (call c first).0 ks < c.capacity
    → (call (run (call c first).0 ks) again).1 ≡ false
accepted_nonce_refused c first again ks v fresh same before soon room =
    let e : ℕ = expiry first.now first.window_secs in
    let spec = check_and_insert-push_nonce c first.nonce first.now first.window_secs v in
    let held : Held first.nonce e 0 (call c first).0.order =
      rw spec
        (push_nonce_fresh-Held c first.nonce first.now first.window_secs (rw spec at fresh)) in
    let (valid, kept) =
      run-Held first.nonce e 0 (call c first).0 ks
        (check_and_insert-IsValid c first.nonce first.now first.window_secs v) before held
        (omega (arith, call-capacity c first v)) in
    rw (
      same,
      Held-refused first.nonce e _ (run (call c first).0 ks) again.now again.window_secs valid soon
          kept,
    )
