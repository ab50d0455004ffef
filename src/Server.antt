-- ===== src/Server.antt =====
-- src/main.rs, the start of `server`: the limits that it accepts, the keys, and the table that
-- finds a device by the selector of its frames. The keyring is what `load_keyring` returned, if a
-- path was given; the iteration over it follows the list.
pub mod Selectors
mod Tests
use smart_fec_tunnel.Base.{
  ℕ, Bool, true, false, not, ◌&&◌, ◌||◌, ltb, ◌==◌, if◌then◌else◌, Option, none, some, List, [],
  ◌∷◌, Result, ok, err, ◌>>=◌, ◌>>◌, bail_if,
}
use smart_fec_tunnel.Base.Crypto.{Blake3}
use smart_fec_tunnel.Base.Maps.{byte_string_key, contains_key, insert}
use smart_fec_tunnel.Base.Text.{Text, is_empty}
use smart_fec_tunnel.Wire.{v3_selector_prefix}
use smart_fec_tunnel.Keyring.{KeyringError, Keys}

pub data ServerError : Type 0 where
  invalid_max_sessions invalid_session_idle no_device_keys selector_collision : ServerError
  keyring_refused : KeyringError → ServerError

abbrev pub Selectors : Type 0
Selectors = List (List ℕ × (ℕ × List ℕ))

abbrev pub is_none : {A : Type 0} → Option A → Bool
is_none none = true
is_none (some a) = false

module _ (b : Blake3) where
  -- The loop over the keyring.
  unfoldable pub add_selectors : Keys b → Selectors → Result ServerError Selectors
  add_selectors [] selectors = ok selectors
  add_selectors ((key_id, device_key) ∷ rest) selectors = do
    bail_if (contains_key (v3_selector_prefix b key_id) selectors) selector_collision
    add_selectors rest (insert (v3_selector_prefix b key_id) (key_id, device_key) selectors)

  abbrev pub loaded : Option (Result KeyringError (Keys b)) → Result ServerError (Keys b)
  loaded none = ok []
  loaded (some (ok keys)) = ok keys
  loaded (some (err e)) = err (keyring_refused e)

  -- `server` up to its loop.
  unfoldable pub server :
      Option Text → Option (Result KeyringError (Keys b)) → ℕ → ℕ → Result ServerError Selectors
  unfolding add_selectors
  server legacy_secret keyring max_sessions session_idle_secs = do
    bail_if (max_sessions == 0 || ltb 65536 max_sessions) invalid_max_sessions
    bail_if (ltb session_idle_secs 10 || ltb 86400 session_idle_secs) invalid_session_idle
    keys ← loaded keyring
    bail_if (is_none legacy_secret && is_empty keys) no_device_keys
    add_selectors keys []
