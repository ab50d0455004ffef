-- ===== src/Controller/Transaction/Sound.antt =====
-- When a transaction and its store are sound: where the pointer leads, and which directories the
-- validator has accepted. What staging, validating, publishing and withdrawing do to that.
use smart_fec_tunnel.Base.{
  ℕ, ◌≡◌, refl, sym, ap, ◌∙◌, Bool, true, false, not, ◌||◌, Bool-cases, Option-cases, ◌⊎◌, inl, inr,
  none, some, List, [], ◌∷◌, ◌++◌, Result, ok, err, arith,
}
use smart_fec_tunnel.Base.Maps.{
  byte_string_key, get, contains_key, insert, remove, contains_key-get,
}
use smart_fec_tunnel.Controller.Transaction.{
  Name, Dir, Store, TransactionState, candidate, validated, committed, RevisionTransaction,
  same_state, current, put_candidate, drop_temporary, temporary_name, stage_file, stage, Validator,
  validate, is_plain_file_name, has_slash, is_nonempty, publish, withdraw,
}
use smart_fec_tunnel.Controller.Transaction.Names.{LeadsTo}
use smart_fec_tunnel.Controller.Transaction.Pointer.{attempt_cases}

-- The pointer is not there, or what it says leads to a revision that is there.
abbrev pub PointsToRevision : Store → Type 0
PointsToRevision s =
    (get current s.files ≡ none)
    ⊎ ((text id : Name) × (get current s.files ≡ some (text ++ b'\n' ∷ []))
        × LeadsTo text id
        × (contains_key id s.revisions ≡ true))

pub record IsSound (v : Validator) (tx : RevisionTransaction) (s : Store) : Type 0 where
  pub own_name : LeadsTo tx.revision_id tx.revision_id
  pub pointer : PointsToRevision s
  pub apart :
      (tx.state ≡ candidate) ⊎ (tx.state ≡ validated)
      → (contains_key tx.revision_id s.candidates ≡ false)
        ⊎ (contains_key tx.revision_id s.revisions ≡ false)
  pub accepted :
      (d : Dir)
      → tx.state ≡ validated
      → get tx.revision_id s.candidates ≡ some d
      → v (some d) ≡ ok tt
  pub published :
      (d : Dir)
      → tx.state ≡ committed
      → get tx.revision_id s.revisions ≡ some d
      → v (some d) ≡ ok tt

-- Only the candidates and the faults differ.
abbrev IsStaged : Store → Store → Type 0
IsStaged s s1 = (s1.revisions ≡ s.revisions) × (s1.files ≡ s.files)

drop_temporary-IsStaged :
    (id : Name) (dir : Dir) (temporary : Name) (s : Store)
    → IsStaged s (drop_temporary id dir temporary s)
drop_temporary-IsStaged id dir temporary s =
    let (fs, well, e) = attempt_cases s in
    elim (Bool-cases well) [ inl w ↦ rw (e, w) (refl, refl) | inr w ↦ rw (e, w) (refl, refl) ]

stage_file-IsStaged :
    (id : Name) (dir : Dir) (name : Name) (bytes : List ℕ) (s : Store)
    → IsStaged s (stage_file id dir name bytes s).0
unfolding stage_file
stage_file-IsStaged id dir name bytes s =
    let temporary = temporary_name name in
    let (f1, b1, e1) = attempt_cases s in
    let s1 : Store = put_candidate id (insert temporary [] dir) (record s { faults = f1 }) in
    let (f2, b2, e2) = attempt_cases s1 in
    let s2 : Store = put_candidate id (insert temporary bytes dir) (record s1 { faults = f2 }) in
    let (f3, b3, e3) = attempt_cases s2 in
    elim (Bool-cases (not b1 || (has_slash name || contains_key temporary dir))) [
      | inl blocked ↦ rw (e1, blocked) (refl, refl)
      | inr opened ↦ elim (Bool-cases b2) [
        | inr w ↦
            rw (e1, opened, e2, w)
              (drop_temporary-IsStaged id _ temporary (record s1 { faults = f2 }))
        | inl w ↦ elim (Bool-cases b3) [
          | inr x ↦
              rw (e1, opened, e2, w, e3, x)
                (drop_temporary-IsStaged id _ temporary (record s2 { faults = f3 }))
          | inl x ↦ rw (e1, opened, e2, w, e3, x) (refl, refl)
        ]
      ]
    ]

-- The pointer's content, and the revisions, decide.
pub PointsToRevision-same :
    (s s1 : Store)
    → s1.revisions ≡ s.revisions
    → get current s1.files ≡ get current s.files
    → PointsToRevision s
    → PointsToRevision s1
PointsToRevision-same s s1 r f (inl absent) = inl (f ∙ absent)
PointsToRevision-same s s1 r f (inr (text, id, there, leads, kept)) =
    inr (text, id, f ∙ there, leads, ap (contains_key id) r ∙ kept)

pub same_state→eq : (a b : TransactionState) → same_state a b ≡ true → a ≡ b
same_state→eq a b h = ground arith

-- Taking the outcome of a call.
pub IsSound-faults :
    (v : Validator) (tx : RevisionTransaction) (s : Store) (fs : List Bool)
    → IsSound v tx s
    → IsSound v tx (record s { faults = fs })
IsSound-faults v tx s fs k = record {
  own_name = k.own_name;
  pointer = k.pointer;
  apart = k.apart;
  accepted = k.accepted;
  published = k.published;
}

-- An open transaction whose candidate is there has no revision of its name yet.
pub unpublished :
    (v : Validator) (tx : RevisionTransaction) (s : Store) (dir : Dir)
    → IsSound v tx s
    → (tx.state ≡ candidate) ⊎ (tx.state ≡ validated)
    → get tx.revision_id s.candidates ≡ some dir
    → contains_key tx.revision_id s.revisions ≡ false
unpublished v tx s dir k o there = elim (k.apart o) [
  | inr absent ↦ absent
  | inl missing ↦ cc (there, contains_key-get tx.revision_id s.candidates missing)
]

pub stage-IsSound :
    (v : Validator) (tx : RevisionTransaction) (name : Name) (bytes : List ℕ) (s : Store)
    → IsSound v tx s
    → IsSound v tx (stage tx name bytes s).0
unfolding stage
stage-IsSound v tx name bytes s k = elim (Bool-cases (same_state tx.state candidate)) [
  | inr closed ↦ rw (stage, closed) k
  | inl open_state ↦ elim (Bool-cases (is_plain_file_name name)) [
    | inr bad ↦ rw (stage, open_state, bad) k
    | inl plain ↦ elim (Option-cases (get tx.revision_id s.candidates)) [
      | inl missing ↦
          let (fs, well, e) = attempt_cases s in
          rw (stage, open_state, plain, missing, e) (IsSound-faults v tx s fs k)
      | inr (dir, there) ↦
          let state = same_state→eq tx.state candidate open_state in
          let (revisions, files) = stage_file-IsStaged tx.revision_id dir name bytes s in
          let fresh = unpublished v tx s dir k (inl state) there in
          rw (stage, open_state, plain, there)
            (record {
              own_name = k.own_name;
              pointer =
                  PointsToRevision-same s (stage_file tx.revision_id dir name bytes s).0 revisions
                    (ap (get current) files) k.pointer;
              apart = λ o. inr (ap (contains_key tx.revision_id) revisions ∙ fresh);
              accepted = λ d done got. cc (state, done);
              published = λ d done got. cc (state, done);
            })
    ]
  ]
]

verdict : (r : Result (List ℕ) (Unit {0})) → (r ≡ ok tt) ⊎ ((why : List ℕ) × (r ≡ err why))
verdict (ok tt) = inl refl
verdict (err why) = inr (why, refl)

pub validate-IsSound :
    (v : Validator) (tx : RevisionTransaction) (s : Store)
    → IsSound v tx s
    → IsSound v (validate v tx s).0 s
unfolding validate
validate-IsSound v tx s k = elim (Bool-cases (same_state tx.state candidate)) [
  | inr closed ↦ rw (validate, closed) k
  | inl open_state ↦ elim (verdict (v (get tx.revision_id s.candidates))) [
    | inr (why, refused) ↦ rw (validate, open_state, refused) k
    | inl passed ↦
        rw (validate, open_state, passed)
          (record {
            own_name = k.own_name;
            pointer = k.pointer;
            apart = λ o. k.apart (inl (same_state→eq tx.state candidate open_state));
            accepted = λ d done got. sym (ap v got) ∙ passed;
            published = λ d done got. cc;
          })
  ]
]

-- What `publish` did: nothing, or it moved the candidate.
pub publish_cases :
    (id : Name) (s : Store)
    → ((fs : List Bool) × (publish id s ≡ (record s { faults = fs }, false)))
      ⊎ ((fs : List Bool) × (dir : Dir) × (get id s.candidates ≡ some dir)
          × (publish id s ≡ (
            record s {
              faults = fs;
              candidates = remove id s.candidates;
              revisions = insert id dir s.revisions;
            },
            true,
          )))
unfolding publish
publish_cases id s =
    let (fs, well, e) = attempt_cases s in
    elim (Bool-cases well) [
      | inr w ↦ inl (fs, rw (publish, e, w))
      | inl w ↦ elim (Option-cases (get id s.candidates)) [
        | inl missing ↦ inl (fs, rw (publish, e, w, missing, e))
        | inr (dir, there) ↦ elim (Bool-cases (is_nonempty (get id s.revisions))) [
          | inl taken ↦ inl (fs, rw (publish, e, w, there, e, taken))
          | inr free ↦ inr (fs, dir, there, rw (publish, e, w, there, e, free))
        ]
      ]
    ]

-- What `withdraw` did: nothing, or it moved the revision back.
pub withdraw_cases :
    (id : Name) (s : Store)
    → ((fs : List Bool) × (withdraw id s ≡ record s { faults = fs }))
      ⊎ ((fs : List Bool) × (dir : Dir) × (get id s.revisions ≡ some dir)
          × (withdraw id s ≡ record s {
            faults = fs;
            revisions = remove id s.revisions;
            candidates = insert id dir s.candidates;
          }))
unfolding withdraw
withdraw_cases id s =
    let (fs, well, e) = attempt_cases s in
    elim (Bool-cases well) [
      | inr w ↦ inl (fs, rw (withdraw, e, w))
      | inl w ↦ elim (Option-cases (get id s.revisions)) [
        | inl missing ↦ inl (fs, rw (withdraw, e, w, missing, e))
        | inr (dir, there) ↦ elim (Bool-cases (is_nonempty (get id s.candidates))) [
          | inl taken ↦ inl (fs, rw (withdraw, e, w, there, e, taken))
          | inr free ↦ inr (fs, dir, there, rw (withdraw, e, w, there, e, free))
        ]
      ]
    ]
