-- ===== src/Base/Toys.antt =====
-- Simple primitives for the tests: a hash that adds up what it is given, and a cipher that appends
-- zeros.
use Prim.Native.Nat.{ℕ, ◌+◌, ◌-◌, ◌*◌, ◌^◌}
use mathlib.Core.Path.{◌≡◌, ap, subst}
use mathlib.Core.Option.{some, some-injective}
use mathlib.Core.List.{List, ◌++◌}
use native.Mathlib.Omega.{arith}
use smart_fec_tunnel.Base.Lists.{length, take, replicate, take-prefix, length-append}
use smart_fec_tunnel.Base.Bytes.{be, from_be, length-be}
use smart_fec_tunnel.Base.Crypto.{Blake3, Aead}

abbrev pub toy_hash : Blake3
toy_hash = record {
  hash = λ m. be 32 (256 ^ 28 * from_be m);
  keyed = λ k m. be 32 (from_be k + from_be m);
  hash_length = λ m. length-be 32 (256 ^ 28 * from_be m);
  keyed_length = λ k m. length-be 32 (from_be k + from_be m);
}

abbrev pub zeros : List ℕ
zeros = replicate 16 0

abbrev pub cut_tag : List ℕ → List ℕ
cut_tag c = take (length c - 16) c

cut_tag-append : (m : List ℕ) → cut_tag (m ++ zeros) ≡ m
cut_tag-append m = take-prefix _ m zeros (omega (arith, length-append m zeros))

pub toy_length : (m c : List ℕ) → some (m ++ zeros) ≡ some c → length c ≡ length m + 16
toy_length m c e =
    subst (λ x. length x ≡ length m + 16) (some-injective _ _ e) (length-append m zeros)

pub toy_inverse : (m c : List ℕ) → some (m ++ zeros) ≡ some c → some (cut_tag c) ≡ some m
toy_inverse m c e =
    subst (λ x. some (cut_tag x) ≡ some m) (some-injective _ _ e) (ap some (cut_tag-append m))

abbrev pub toy_cipher : Aead
toy_cipher = record {
  encrypt = λ k n m. some (m ++ zeros);
  decrypt = λ k n c. some (cut_tag c);
  ciphertext_length = λ k n m c e. toy_length m c e;
  decrypt-encrypt = λ k n m c e. toy_inverse m c e;
}
