-- ===== src/Auth/Cache.antt =====
-- src/quic_auth.rs, `ReplayCache`: the nonces that were accepted, each with the time at which it
-- expires. `entries` is the hash map, `order` the queue, its front first. Times are `u64`.
pub mod Fifo
pub mod Replay
mod Tests
use smart_fec_tunnel.Base.{
  ℕ, ◌+◌, min, Bool, true, false, ltb, leb, ◌==◌, if◌then◌else◌, Option, none, some, List, [], ◌∷◌,
  ◌++◌, length, Result, ok, err,
}
use smart_fec_tunnel.Base.Maps.{byte_string_key, get, contains_key, insert, remove}

abbrev pub u64_max : ℕ
u64_max = 18446744073709551615

-- [u8; 16]
abbrev pub Nonce : Type 0
Nonce = List ℕ

pub record ReplayCache : Type 0 where
  pub capacity : ℕ
  pub entries : List (Nonce × ℕ)
  pub order : List (Nonce × ℕ)

pub data CacheError : Type 0 where
  zero_capacity : CacheError

-- ReplayCache::new
unfoldable pub new : ℕ → Result CacheError ReplayCache
new capacity =
    if capacity == 0
    then err zero_capacity
    else ok (record { capacity = capacity; entries = []; order = [] })

abbrev pub is_entry : Option ℕ → ℕ → Bool
is_entry none t = false
is_entry (some u) t = u == t

-- `if self.entries.get(&old) == Some(&expires_at) { self.entries.remove(&old) }`
unfoldable pub forget : Nonce → ℕ → List (Nonce × ℕ) → List (Nonce × ℕ)
forget old expires_at entries =
    if is_entry (get old entries) expires_at then remove old entries else entries

-- The first loop: the front of the queue goes while it has expired.
unfoldable pub expire :
    ℕ → List (Nonce × ℕ) → List (Nonce × ℕ) → List (Nonce × ℕ) × List (Nonce × ℕ)
unfolding forget
expire now entries [] = (entries, [])
expire now entries ((old, expires_at) ∷ order) =
    let rest = expire now (forget old expires_at entries) order in
    if ltb now expires_at then (entries, (old, expires_at) ∷ order) else rest

-- The second loop: the front goes while the map is full.
unfoldable pub evict : ℕ → List (Nonce × ℕ) → List (Nonce × ℕ) → List (Nonce × ℕ) × List (Nonce × ℕ)
unfolding forget
evict capacity entries [] = (entries, [])
evict capacity entries ((old, expires_at) ∷ order) =
    let rest = evict capacity (forget old expires_at entries) order in
    if leb capacity (length entries) then rest else (entries, (old, expires_at) ∷ order)

-- now.saturating_add(window_secs).saturating_add(1)
abbrev pub expiry : ℕ → ℕ → ℕ
expiry now window_secs = min u64_max (min u64_max (now + window_secs) + 1)

-- What follows the duplicate test.
unfoldable pub remember : ReplayCache → Nonce → ℕ → ReplayCache
unfolding evict
remember c nonce expires_at =
    let (entries, order) = evict c.capacity c.entries c.order in
    record c {
      entries = insert nonce expires_at entries;
      order = order ++ (nonce, expires_at) ∷ [];
    }

-- ReplayCache::check_and_insert
unfoldable pub check_and_insert : ReplayCache → Nonce → ℕ → ℕ → ReplayCache × Bool
unfolding expire remember
check_and_insert c nonce now window_secs =
    let (entries, order) = expire now c.entries c.order in
    let d : ReplayCache = record c { entries = entries; order = order } in
    if contains_key nonce entries
    then (d, false)
    else (remember d nonce (expiry now window_secs), true)
