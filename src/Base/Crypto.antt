-- ===== src/Base/Crypto.antt =====
-- What the program uses of its cryptographic crates: BLAKE3 (`blake3`) and XChaCha20-Poly1305
-- (`chacha20poly1305`). They are parameters of the models, with the documented lengths of their
-- results and the fact that decryption undoes encryption under the same key and nonce.
use Prim.Native.Nat.{ℕ, ◌+◌}
use mathlib.Core.Path.{◌≡◌}
use mathlib.Core.Option.{Option, some}
use mathlib.Core.List.{List}
use smart_fec_tunnel.Base.Lists.{length}

pub record Blake3 : Type 0 where
  pub hash : List ℕ → List ℕ
  pub keyed : List ℕ → List ℕ → List ℕ
  pub hash_length : (message : List ℕ) → length (hash message) ≡ 32
  pub keyed_length : (key message : List ℕ) → length (keyed key message) ≡ 32

-- `encrypt key nonce plaintext`; both calls may fail.
pub record Aead : Type 0 where
  pub encrypt : List ℕ → List ℕ → List ℕ → Option (List ℕ)
  pub decrypt : List ℕ → List ℕ → List ℕ → Option (List ℕ)
  pub ciphertext_length :
      (key nonce m c : List ℕ) → encrypt key nonce m ≡ some c → length c ≡ length m + 16
  pub decrypt-encrypt :
      (key nonce m c : List ℕ) → encrypt key nonce m ≡ some c → decrypt key nonce c ≡ some m
