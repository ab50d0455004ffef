-- ===== src/Auth/Envelope/Fields.antt =====
-- Where the fields of an envelope stand: the slices of the code, read off a prefix that
-- `envelope_prefix` wrote.
use smart_fec_tunnel.Base.{
  ℕ, ◌<◌, ◌≡◌, subst, false, ◌^◌, List, ◌++◌, length, take, drop, length-append, take-append,
  drop-append, arith,
}
use smart_fec_tunnel.Base.Bytes.{be, from_be, slice, bytes_eq, from_be-be}
use smart_fec_tunnel.Auth.Cache.{Nonce}
use smart_fec_tunnel.Auth.Envelope.{envelope_prefix, is_malformed}

module _ (id t : ℕ) (n : Nonce) (tail : List ℕ) (h : length n ≡ 16) where
  pub length-envelope_prefix : length (envelope_prefix id t n) ≡ 37
  unfolding envelope_prefix be
  length-envelope_prefix = omega arith

  pub field_device : id < 256 ^ 8 → from_be (slice 5 13 (envelope_prefix id t n ++ tail)) ≡ id
  unfolding envelope_prefix be
  field_device b = from_be-be 8 id b

  pub field_timestamp : t < 256 ^ 8 → from_be (slice 13 21 (envelope_prefix id t n ++ tail)) ≡ t
  unfolding envelope_prefix be
  field_timestamp b = from_be-be 8 t b

  pub field_nonce : slice 21 37 (envelope_prefix id t n ++ tail) ≡ n
  unfolding envelope_prefix be
  field_nonce = subst (λ k. take k (n ++ tail) ≡ n) h (take-append n tail)

  pub field_mac : drop 37 (envelope_prefix id t n ++ tail) ≡ tail
  field_mac =
      subst (λ k. drop k (envelope_prefix id t n ++ tail) ≡ tail) length-envelope_prefix
        (drop-append (envelope_prefix id t n) tail)

  pub well_formed : length tail ≡ 32 → is_malformed (envelope_prefix id t n ++ tail) ≡ false
  unfolding is_malformed envelope_prefix be bytes_eq
  well_formed l = let e : length (n ++ tail) ≡ 48 = omega (arith, length-append n tail) in rw e
