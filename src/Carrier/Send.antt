-- ===== src/Carrier/Send.antt =====
-- What the sender puts on the connection.
use smart_fec_tunnel.Base.{
  ℕ, ◌+◌, ◌-◌, ◌%◌, ◌≤◌, ◌<◌, ◌≡◌, refl, sym, ap, ◌∙◌, if◌then◌else◌, max, some, List, [], ◌∷◌,
  ◌++◌, append-nil, length, concat, ok, arith,
}
use smart_fec_tunnel.Base.Chunks.{chunks, div_ceil, concat-chunks, length-chunks}
use smart_fec_tunnel.Carrier.{
  max_carrier_fragments, carrier_header, carrier_frame, carrier_frames, is_empty, send_carrier,
}

-- The chunks that are sent: those of the payload, or one empty chunk for the empty payload.
unfoldable pub sent_chunks : ℕ → List ℕ → List (List ℕ)
sent_chunks n [] = [] ∷ []
sent_chunks n (x ∷ xs) = chunks n (x ∷ xs)

concat-sent_chunks : (n : ℕ) (xs : List ℕ) → 0 < n → concat (sent_chunks n xs) ≡ xs
unfolding sent_chunks
concat-sent_chunks n [] p = refl
concat-sent_chunks n (x ∷ xs) p = concat-chunks n (x ∷ xs) p

div_ceil-one : (n : ℕ) → 0 < n → div_ceil 1 n ≡ 1
div_ceil-one n p = grind arith

div_ceil_pos : (a n : ℕ) → 0 < a → 0 < n → 0 < div_ceil a n
div_ceil_pos a n l p = grind arith

length-sent_chunks :
    (n : ℕ) (xs : List ℕ) → 0 < n → length (sent_chunks n xs) ≡ div_ceil (max (length xs) 1) n
unfolding sent_chunks
length-sent_chunks n [] p = sym (div_ceil-one n p)
length-sent_chunks n (x ∷ xs) p = length-chunks n (x ∷ xs) p ∙ ap (λ k. div_ceil k n) (omega arith)

send_inversion :
    (maximum message next : ℕ) (payload : List ℕ) (frames : List (List ℕ))
    → send_carrier (some maximum) payload message ≡ ok (next, frames)
    → let chunk = maximum - carrier_header in
      let count = div_ceil (max (length payload) 1) chunk in
      (carrier_header < maximum)
      × (count ≤ max_carrier_fragments)
      × (next ≡ (message + 1) % 18446744073709551616)
      × (frames
          ≡ carrier_frames next count 0 (chunks chunk payload)
            ++ (if is_empty payload then carrier_frame next 0 1 [] ∷ [] else []))
unfolding send_carrier
send_inversion maximum message next payload frames h = ground arith

frames_of_chunks :
    (next n count : ℕ) (payload : List ℕ)
    → 0 < n
    → count ≡ length (sent_chunks n payload)
    → carrier_frames next count 0 (chunks n payload)
        ++ (if is_empty payload then carrier_frame next 0 1 [] ∷ [] else [])
      ≡ carrier_frames next (length (sent_chunks n payload)) 0 (sent_chunks n payload)
unfolding sent_chunks carrier_frames chunks
frames_of_chunks next n count [] p e = refl
frames_of_chunks next n count (x ∷ xs) p e =
    append-nil (carrier_frames next count 0 (chunks n (x ∷ xs)))
    ∙ ap (λ k. carrier_frames next k 0 (chunks n (x ∷ xs))) e

-- When the sender accepts a payload, it counts one message, and sends as that message the frames
-- of chunks that concatenate to the payload, in order, each with its index and their number; there
-- are 128 at most. An empty payload is one empty chunk.
pub send_carrier_chunks :
    (maximum message next : ℕ) (payload : List ℕ) (frames : List (List ℕ))
    → send_carrier (some maximum) payload message ≡ ok (next, frames)
    → let cs = sent_chunks (maximum - carrier_header) payload in
      (next ≡ (message + 1) % 18446744073709551616)
      × (frames ≡ carrier_frames next (length cs) 0 cs)
      × (concat cs ≡ payload)
      × (length cs ≤ max_carrier_fragments)
send_carrier_chunks maximum message next payload frames h =
    let (long, few, counted, all) = send_inversion maximum message next payload frames h in
    let n = maximum - carrier_header in
    let p : 0 < n = omega arith in
    let size = length-sent_chunks n payload p in
    (
      counted,
      all ∙ frames_of_chunks next n _ payload p (sym size),
      concat-sent_chunks n payload p,
      rw size few,
    )

-- At least one chunk is sent.
pub sent_chunks_nonempty :
    (maximum message next : ℕ) (payload : List ℕ) (frames : List (List ℕ))
    → send_carrier (some maximum) payload message ≡ ok (next, frames)
    → 0 < length (sent_chunks (maximum - carrier_header) payload)
sent_chunks_nonempty maximum message next payload frames h =
    let p : 0 < maximum - carrier_header =
      omega (arith, (send_inversion maximum message next payload frames h).0) in
    rw (length-sent_chunks (maximum - carrier_header) payload p)
      (div_ceil_pos (max (length payload) 1) (maximum - carrier_header) (omega arith) p)
