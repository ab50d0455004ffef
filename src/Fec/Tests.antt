-- ===== src/Fec/Tests.antt =====
-- FEC tests of src/main.rs, run, and the theorems at concrete inputs.
use smart_fec_tunnel.Base.{
  ℕ, zero, suc, ◌≤◌, ◌≡◌, refl, subst, min, Option, none, some, List, [], ◌∷◌, ◌++◌, take, drop,
  replicate, concat, arith,
}
use smart_fec_tunnel.Base.Chunks.{chunks, Fits}
use smart_fec_tunnel.Fec.{ReedSolomon}
use smart_fec_tunnel.Fec.Encoder.{
  Encoder, with_identity, group_parity, fragment_shard, fragment_shards, datagram_chunks,
  encode_datagram,
}
use smart_fec_tunnel.Fec.Encoder.Parity.{group_parity_exact}
use smart_fec_tunnel.Fec.Encoder.Output.{Outputs, encode_datagram-Outputs}
use smart_fec_tunnel.Fec.Encoder.Total.{IsCode, IsReady, Done, encode_datagram-Done}
use smart_fec_tunnel.Fec.Fragment.{fragment}
use smart_fec_tunnel.Fec.Fragment.Safety.{Sent, IsConsistent, IsSent, fragment-IsConsistent}
use smart_fec_tunnel.Fec.Decoder.{present}
use smart_fec_tunnel.Fec.Decoder.Holding.{IsRestoring, multiplicity}
use smart_fec_tunnel.Fec.Decoder.Stored.{has_come, places_from}
use smart_fec_tunnel.Fec.Decoder.Recovery.{absorb_all, empty_group, absorb_all-take}

-- A code for one data shard and one repair shard: the duplicate.
abbrev duplicate : ℕ → ℕ → List (List ℕ) → Option (List (List ℕ))
duplicate (suc zero) (suc zero) (s ∷ []) = some (s ∷ [])
duplicate n p ss = none

abbrev from_either : ℕ → ℕ → List (Option (List ℕ)) → Option (List (Option (List ℕ)))
from_either (suc zero) (suc zero) (some s ∷ t ∷ []) = some (some s ∷ some s ∷ [])
from_either (suc zero) (suc zero) (none ∷ some t ∷ []) = some (some t ∷ some t ∷ [])
from_either n p ss = none

abbrev duplicate_code : ReedSolomon
duplicate_code = record { encode = duplicate; reconstruct = from_either }

duplicate_inversion :
    (n p : ℕ) (ss repair : List (List ℕ))
    → duplicate n p ss ≡ some repair
    → (s : List ℕ) × (n ≡ 1) × (p ≡ 1) × (ss ≡ s ∷ []) × (repair ≡ s ∷ [])
duplicate_inversion zero p ss repair h = absurd (ground arith)
duplicate_inversion (suc zero) zero ss repair h = absurd (ground arith)
duplicate_inversion (suc zero) (suc (suc p)) ss repair h = absurd (ground arith)
duplicate_inversion (suc (suc n)) p ss repair h = absurd (ground arith)
duplicate_inversion (suc zero) (suc zero) [] repair h = absurd (ground arith)
duplicate_inversion (suc zero) (suc zero) (s ∷ t ∷ ss) repair h = absurd (ground arith)
duplicate_inversion (suc zero) (suc zero) (s ∷ []) repair h = (s, refl, refl, refl, ground arith)

split_group :
    (ws : List (List ℕ)) (s : List ℕ) → take 1 ws ≡ s ∷ [] → drop 1 ws ≡ s ∷ [] → ws ≡ s ∷ s ∷ []
split_group [] s a b = absurd (ground arith)
split_group (w ∷ ws) s a b = ground arith

either_restores :
    (s : List ℕ) (parts : List (Option (List ℕ)))
    → Fits parts (s ∷ s ∷ [])
    → 1 ≤ present parts
    → from_either 1 1 parts ≡ some (some s ∷ some s ∷ [])
unfolding present
either_restores s [] f h = absurd f
either_restores s (a ∷ []) f h = absurd f.1
either_restores s (a ∷ b ∷ c ∷ ps) f h = absurd f.1.1
either_restores s (some a ∷ b ∷ []) f h = ground arith
either_restores s (none ∷ some b ∷ []) f h = ground arith
either_restores s (none ∷ none ∷ []) f h = absurd (omega arith)

duplicate_code-IsRestoring : IsRestoring duplicate_code
duplicate_code-IsRestoring = record {
  restores = λ n p ws parts own pos fits enough.
      let (s, one, single, front, back) =
        duplicate_inversion n p (take n ws) (drop n ws) own.encoded in
      let both =
        split_group ws s (subst (λ k. take k ws ≡ s ∷ []) one front)
          (subst (λ k. drop k ws ≡ s ∷ []) one back) in
      let many : 1 ≤ present parts = omega (arith, enough, one) in
      rw (one, single, both) (either_restores s parts (subst (Fits parts) both fits) many);
}

-- The data shard is lost; its duplicate arrives twice.
absorb_all-take_example :
    multiplicity
      (5 ∷ [])
      (absorb_all duplicate_code (empty_group 0 1 1) ((1, 5 ∷ []) ∷ (1, 5 ∷ []) ∷ [])).1
    ≡ multiplicity (5 ∷ []) ((5 ∷ []) ∷ [])
unfolding has_come places_from
absorb_all-take_example =
    absorb_all-take duplicate_code 0 1 1 ((5 ∷ []) ∷ (5 ∷ []) ∷ []) ((1, 5 ∷ []) ∷ (1, 5 ∷ []) ∷ [])
      duplicate_code-IsRestoring
      (record { some_data = omega arith; limit = omega arith; encoded = refl }) (omega arith) refl
      (refl, (refl, tt)) (omega arith) (5 ∷ [])

-- A code that accepts everything that the package accepts.
abbrev zero_code : ReedSolomon
zero_code = record { encode = λ n p ss. some (replicate p []); reconstruct = λ n p parts. none }

zero_code-IsCode : IsCode zero_code
zero_code-IsCode = record {
  encodes = λ n p k ss some_data some_repair limit long size same. (replicate p [], refl);
}

abbrev encoder : Encoder
encoder = with_identity 7 1 0 none

encoder-IsReady : IsReady encoder
encoder-IsReady = record { few = omega arith; long = tt }

group_parity_exact_example :
    (group_parity encoder 3 ≤ min 3 4)
    × (encoder.force_parity ≡ none → group_parity encoder 3 ≡ min 0 3)
group_parity_exact_example = group_parity_exact encoder 3 (omega arith) (omega arith) (omega arith)

encode_datagram-Outputs_example :
    Outputs
      (encode_datagram zero_code encoder (1 ∷ 2 ∷ []))
      ([] ++ fragment_shards 1 1 0 ((1 ∷ 2 ∷ []) ∷ []))
    × (concat {A = ℕ} ((1 ∷ 2 ∷ []) ∷ []) ≡ 1 ∷ 2 ∷ [])
unfolding datagram_chunks chunks
encode_datagram-Outputs_example = encode_datagram-Outputs zero_code encoder (1 ∷ 2 ∷ [])

encode_datagram-Done_example : Done (encode_datagram zero_code encoder (1 ∷ 2 ∷ []))
encode_datagram-Done_example =
    encode_datagram-Done zero_code encoder (1 ∷ 2 ∷ []) zero_code-IsCode encoder-IsReady
      (omega arith)

abbrev sent : Sent
sent m = (1 ∷ 2 ∷ []) ∷ (3 ∷ []) ∷ []

fragment-IsConsistent_example :
    let r = fragment [] 50 (fragment_shard 9 1 2 (3 ∷ []) ++ replicate 1 0) in
    IsConsistent sent r.0 × IsSent (sent 9) r.1
fragment-IsConsistent_example =
    fragment-IsConsistent sent [] 50 9 1 1 (3 ∷ []) tt refl (omega arith) (omega arith)
      (omega arith) (omega arith)
