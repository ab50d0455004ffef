-- ===== src/Sessions/Exclusive.antt =====
-- A device has one session: a new one takes over from all others or is refused.
use smart_fec_tunnel.Base.{
  ℕ, ◌+◌, ◌≤◌, ◌≡◌, refl, sym, subst, ◌∙◌, Bool, true, false, ◌==◌, if◌then◌else◌, Bool-cases,
  Option-cases, ◌⊎◌, inl, inr, none, some, List, [], ◌∷◌, length, arith,
}
use smart_fec_tunnel.Base.Maps.{
  pair_key, get, contains_key, insert, remove, contains_key-get, length-insert, length-remove-le,
}
use smart_fec_tunnel.Wire.{Frame}
use smart_fec_tunnel.Sessions.{
  SessionEntry, Sessions, others, superseded_sessions, remove_sessions, device_count, is_v2_or_v3,
  at_limit, start, open_session, hand_over, receive, try_send,
}

device_count-remove :
    (k : ℕ) (id : ℕ × ℕ) (ss : Sessions) → device_count k (remove id ss) ≤ device_count k ss
unfolding device_count remove
device_count-remove k id [] = omega arith
device_count-remove k id ((j, e) ∷ ss) = ground (arith, device_count-remove k id ss)

device_count-remove_sessions :
    (k : ℕ) (ids : List (ℕ × ℕ)) (ss : Sessions)
    → device_count k (remove_sessions ids ss) ≤ device_count k ss
unfolding remove_sessions
device_count-remove_sessions k [] ss = omega arith
device_count-remove_sessions k (id ∷ ids) ss =
    omega (arith, device_count-remove_sessions k ids (remove id ss), device_count-remove k id ss)

length-remove_sessions :
    (ids : List (ℕ × ℕ)) (ss : Sessions) → length (remove_sessions ids ss) ≤ length ss
unfolding remove_sessions
length-remove_sessions [] ss = omega arith
length-remove_sessions (id ∷ ids) ss =
    omega (arith, length-remove_sessions ids (remove id ss), length-remove-le id ss)

device_count-insert :
    (k : ℕ) (id : ℕ × ℕ) (e : SessionEntry) (ss : Sessions)
    → device_count k (insert id e ss) ≡ (
        if contains_key id ss
        then device_count k ss
        else if id.0 == k
        then device_count k ss + 1
        else device_count k ss)
unfolding device_count insert contains_key
device_count-insert k id e [] = ground arith
device_count-insert k id e ((j, d) ∷ ss) = ground (arith, device_count-insert k id e ss)

no_others : (k s : ℕ) (ss : Sessions) → device_count k ss ≡ 0 → others ss k s ≡ []
unfolding device_count others
no_others k s [] h = refl
no_others k s ((j, e) ∷ ss) h = ground (arith, no_others k s ss)

foreign-remove_sessions :
    (k : ℕ) (ids : List (ℕ × ℕ)) (j : ℕ × ℕ) (e : SessionEntry) (ss : Sessions)
    → (j.0 == k) ≡ false
    → device_count k (remove_sessions ids ((j, e) ∷ ss)) ≤ device_count k (remove_sessions ids ss)
unfolding remove_sessions device_count remove
foreign-remove_sessions k [] j e ss h = ground arith
foreign-remove_sessions k (id ∷ ids) j e ss h =
    ground (arith, foreign-remove_sessions k ids j e (remove id ss) h)

-- With one session or none, and that not the new one, all that the device has is superseded.
others-cleared :
    (k s : ℕ) (ss : Sessions)
    → contains_key (k, s) ss ≡ false
    → device_count k ss ≤ 1
    → device_count k (remove_sessions (others ss k s) ss) ≡ 0
unfolding device_count others remove_sessions remove contains_key
others-cleared k s [] h l = refl
others-cleared k s ((j, e) ∷ ss) h l = elim (Bool-cases (j.0 == k)) [
  | inl own ↦
      let rest_empty : device_count k ss ≡ 0 = ground arith in
      let differs : (j.1 == s) ≡ false = ground arith in
      let no_more = no_others k s ss rest_empty in
      rw (own, differs, no_more) (ground (arith, device_count-remove k j ss))
  | inr foreign ↦ rw foreign (
      omega (
        arith,
        foreign-remove_sessions k (others ss k s) j e ss foreign,
        others-cleared k s ss (ground arith) (ground arith),
      ))
]

-- Every device has at most one session.
abbrev pub IsExclusive : Sessions → Type 0
IsExclusive ss = (k : ℕ) → device_count k ss ≤ 1

start-device_count :
    (max now : ℕ) (ss : Sessions) (f : Frame) (k : ℕ)
    → (device_count k (start max now ss f) ≡ device_count k ss)
      ⊎ ((k ≡ f.key_id) × (device_count k (start max now ss f) ≡ device_count k ss + 1))
unfolding start
start-device_count max now ss f k = ground (
  arith,
  device_count-insert k (f.key_id, f.session)
      (record { last_seen = now; queued = []; is_finished = false }) ss,
)

superseded_cases :
    (ss : Sessions) (k s n : ℕ)
    → (superseded_sessions ss k s n ≡ none) ⊎ (superseded_sessions ss k s n ≡ some (others ss k s))
unfolding superseded_sessions
superseded_cases ss k s n = ground arith

open_session-IsExclusive :
    (max now : ℕ) (ss : Sessions) (f : Frame)
    → IsExclusive ss
    → is_v2_or_v3 f ≡ true
    → contains_key (f.key_id, f.session) ss ≡ false
    → IsExclusive (open_session max now ss f)
unfolding open_session
open_session-IsExclusive max now ss f one v absent k =
    elim (superseded_cases ss f.key_id f.session f.sequence) [
      | inl refused ↦ rw (open_session, v, refused) (one k)
      | inr taken ↦
          let ids = others ss f.key_id f.session in
          let kept = remove_sessions ids ss in
          let fewer = device_count-remove_sessions k ids ss in
          let cleared = others-cleared f.key_id f.session ss absent (one f.key_id) in
          rw (open_session, v, taken)
            (elim (start-device_count max now kept f k) [
              | inl same ↦ omega (arith, same, fewer, one k)
              | inr (own, more) ↦
                  let empty : device_count k kept ≡ 0 =
                    subst (λ i. device_count i kept ≡ 0) (sym own) cleared in
                  omega (arith, more, empty)
            ])
    ]

hand_over-device_count :
    (now : ℕ) (ss : Sessions) (f : Frame) (peer k : ℕ)
    → device_count k (hand_over now ss (record { frame = f; peer = peer })) ≡ device_count k ss
unfolding hand_over
hand_over-device_count now ss f peer k = elim (Bool-cases (contains_key (f.key_id, f.session) ss)) [
  | inr absent ↦ rw (hand_over, contains_key-get (f.key_id, f.session) ss absent) refl
  | inl there ↦ elim (Option-cases (get (f.key_id, f.session) ss)) [
    | inl missing ↦ rw (hand_over, missing) refl
    | inr (entry, found) ↦
        rw (hand_over, found)
          (device_count-insert k (f.key_id, f.session)
              (try_send (record entry { last_seen = now }) (record { frame = f; peer = peer })) ss
            ∙ rw there refl)
  ]
]

-- A device never has two sessions: a frame of version 2 or 3 keeps at most one session for each
-- device. If it opens one, it takes over from the device's other session, or it is refused.
pub receive-IsExclusive :
    (max now : ℕ) (ss : Sessions) (f : Frame) (peer : ℕ)
    → IsExclusive ss
    → is_v2_or_v3 f ≡ true
    → IsExclusive (receive max now ss f peer)
unfolding receive
receive-IsExclusive max now ss f peer one v k =
    elim (Bool-cases (contains_key (f.key_id, f.session) ss)) [
      | inl there ↦ rw (receive, there, hand_over-device_count now ss f peer k) (one k)
      | inr absent ↦
          rw (receive, absent, hand_over-device_count now (open_session max now ss f) f peer k)
            (open_session-IsExclusive max now ss f one v absent k)
    ]

length-start :
    (max now : ℕ) (ss : Sessions) (f : Frame) → length ss ≤ max → length (start max now ss f) ≤ max
unfolding start at_limit
length-start max now ss f h = ground (
  arith,
  length-insert (f.key_id, f.session) (record { last_seen = now; queued = []; is_finished = false })
      ss,
)

if_false : (b : Bool) (x y : Sessions) → b ≡ false → (if b then x else y) ≡ y
if_false b x y h = rw h refl

length-open_session :
    (max now : ℕ) (ss : Sessions) (f : Frame)
    → length ss ≤ max
    → length (open_session max now ss f) ≤ max
unfolding open_session
length-open_session max now ss f h = elim (Bool-cases (is_v2_or_v3 f)) [
  | inr old ↦
      subst (λ z. length z ≤ max) (sym (if_false (is_v2_or_v3 f) _ (start max now ss f) old))
        (length-start max now ss f h)
  | inl v ↦ elim (superseded_cases ss f.key_id f.session f.sequence) [
    | inl refused ↦ rw (open_session, v, refused) h
    | inr taken ↦
        let ids = others ss f.key_id f.session in
        rw (open_session, v, taken)
          (length-start max now (remove_sessions ids ss) f
            (omega (arith, h, length-remove_sessions ids ss)))
  ]
]

length-hand_over :
    (now : ℕ) (ss : Sessions) (f : Frame) (peer : ℕ)
    → length (hand_over now ss (record { frame = f; peer = peer })) ≡ length ss
unfolding hand_over
length-hand_over now ss f peer = elim (Option-cases (get (f.key_id, f.session) ss)) [
  | inl missing ↦ rw (hand_over, missing) refl
  | inr (entry, found) ↦ elim (Bool-cases (contains_key (f.key_id, f.session) ss)) [
    | inl there ↦
        rw (hand_over, found)
          (length-insert (f.key_id, f.session)
              (try_send (record entry { last_seen = now }) (record { frame = f; peer = peer })) ss
            ∙ rw there refl)
    | inr absent ↦
        let none_there = contains_key-get (f.key_id, f.session) ss absent in absurd (ground arith)
  ]
]

-- Whatever frame arrives, the table does not grow over its limit.
pub length-receive :
    (max now : ℕ) (ss : Sessions) (f : Frame) (peer : ℕ)
    → length ss ≤ max
    → length (receive max now ss f peer) ≤ max
unfolding receive
length-receive max now ss f peer h = elim (Bool-cases (contains_key (f.key_id, f.session) ss)) [
  | inl there ↦ rw (receive, there, length-hand_over now ss f peer) h
  | inr absent ↦
      rw (receive, absent, length-hand_over now (open_session max now ss f) f peer)
        (length-open_session max now ss f h)
]
