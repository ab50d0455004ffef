-- ===== src/Controller/Transaction/Runs.antt =====
-- Runs of a transaction: every call keeps it sound, whichever calls of the file system fail.
use smart_fec_tunnel.Base.{
  ℕ, ◌≡◌, refl, ap, ◌∙◌, Bool, false, Bool-cases, inl, inr, some, List, [], ◌∷◌,
}
use smart_fec_tunnel.Base.Maps.{
  byte_string_key, get, contains_key, insert, remove, get-insert, contains_key-insert,
  contains_key-remove, contains_key-get, same_refl,
}
use smart_fec_tunnel.Controller.Transaction.{
  Name, Dir, Store, validated, RevisionTransaction, same_state, current, stage, Validator, validate,
  write_pointer, withdraw, commit, rollback,
}
use smart_fec_tunnel.Controller.Transaction.Pointer.{write_pointer-IsPointed}
use smart_fec_tunnel.Controller.Transaction.Sound.{
  PointsToRevision, IsSound, IsSound-faults, same_state→eq, unpublished, publish_cases,
  withdraw_cases, stage-IsSound, validate-IsSound,
}
use smart_fec_tunnel.Controller.Transaction.Restore.{rollback-IsSound}

abbrev same_name : Name → Name → Bool
same_name a b = byte_string_key.same a b

-- A pointer that names a revision still does when a revision of another name comes or goes.
pointed-other :
    (s : Store) (id : Name) (revisions : List (Name × Dir))
    → contains_key id s.revisions ≡ false
    → ((j : Name) → same_name j id ≡ false → contains_key j revisions ≡ contains_key j s.revisions)
    → (s1 : Store) → s1.revisions ≡ revisions
    → get current s1.files ≡ get current s.files
    → PointsToRevision s
    → PointsToRevision s1
pointed-other s id revisions fresh keeps s1 r f (inl absent) = inl (f ∙ absent)
pointed-other s id revisions fresh keeps s1 r f (inr (text, j, there, leads, kept)) =
    elim (Bool-cases (same_name j id)) [
      | inr other ↦ inr (text, j, f ∙ there, leads, ap (contains_key j) r ∙ keeps j other ∙ kept)
      | inl own ↦
          let e = (byte_string_key.same_iff j id).0 own in
          cc (kept, fresh, ap (λ k. contains_key k s.revisions) e)
    ]

-- After a candidate was moved to the revisions and the pointer could not be written: either it
-- stays there, or it is moved back.
commit_failed :
    (v : Validator) (tx : RevisionTransaction) (s : Store) (dir : Dir) (s2 : Store)
    → IsSound v tx s
    → tx.state ≡ validated
    → get tx.revision_id s.candidates ≡ some dir
    → s2.candidates ≡ remove tx.revision_id s.candidates
    → s2.revisions ≡ insert tx.revision_id dir s.revisions
    → get current s2.files ≡ get current s.files
    → IsSound v tx (withdraw tx.revision_id s2)
commit_failed v tx s dir s2 k state there cands revs files =
    let id = tx.revision_id in
    let fresh = unpublished v tx s dir k (inr state) there in
    let gone : contains_key id s2.candidates ≡ false =
      ap (contains_key id) cands ∙ contains_key-remove id id s.candidates ∙ rw (same_refl id) in
    let held : get id s2.revisions ≡ some dir =
      ap (get id) revs ∙ get-insert id id dir s.revisions ∙ rw (same_refl id) in
    elim (withdraw_cases id s2) [
      | inl (fs, stayed) ↦ rw stayed (record {
        own_name = k.own_name;
        pointer =
            pointed-other s id s2.revisions fresh
              (λ j other.
                ap (contains_key j) revs ∙ contains_key-insert j id dir s.revisions ∙ rw other)
              (record s2 { faults = fs }) refl files k.pointer;
        apart = λ o. inl gone;
        accepted = λ d done got. cc (got, contains_key-get id s2.candidates gone);
        published = λ d done got. cc (state, done);
      })
      | inr (fs, d2, found, moved) ↦ rw moved (record {
        own_name = k.own_name;
        pointer =
            pointed-other s id (remove id s2.revisions) fresh
              (λ j other.
                contains_key-remove j id s2.revisions
                ∙ (rw other)
                ∙ ap (contains_key j) revs
                ∙ contains_key-insert j id dir s.revisions
                ∙ rw other)
              (record s2 {
                faults = fs;
                revisions = remove id s2.revisions;
                candidates = insert id d2 s2.candidates;
              })
              refl files k.pointer;
        apart = λ o. inr (contains_key-remove id id s2.revisions ∙ rw (same_refl id));
        accepted = λ d done got.
            let back : get id (insert id d2 s2.candidates) ≡ some d2 =
              get-insert id id d2 s2.candidates ∙ rw (same_refl id) in
            k.accepted d done (cc (back, got, found, held, there));
        published = λ d done got. cc (state, done);
      })
    ]

commit-IsSound :
    (v : Validator) (tx : RevisionTransaction) (s : Store)
    → IsSound v tx s
    → let r = commit tx s in IsSound v r.0.0 r.0.1
unfolding commit
commit-IsSound v tx s k = elim (Bool-cases (same_state tx.state validated)) [
  | inr closed ↦ rw (commit, closed) k
  | inl open_state ↦
      let id = tx.revision_id in
      let state = same_state→eq tx.state validated open_state in
      elim (publish_cases id s) [
        | inl (fs, kept) ↦ rw (commit, open_state, kept) (IsSound-faults v tx s fs k)
        | inr (fs, dir, there, moved) ↦
            let s1 : Store = record s {
              faults = fs;
              candidates = remove id s.candidates;
              revisions = insert id dir s.revisions;
            } in
            let p = write_pointer-IsPointed id s1 in
            let held : get id (insert id dir s.revisions) ≡ some dir =
              get-insert id id dir s.revisions ∙ (rw (same_refl id)) in
            elim (Bool-cases (write_pointer id s1).1) [
              | inr failed ↦
                  rw (commit, open_state, moved, failed)
                    (commit_failed v tx s dir (write_pointer id s1).0 k state there p.candidates
                      p.revisions (p.pointer ∙ (rw failed)))
              | inl pointed ↦
                  rw (commit, open_state, moved, pointed)
                    (record {
                      own_name = k.own_name;
                      pointer = inr (
                        id,
                        id,
                        p.pointer ∙ (rw pointed),
                        k.own_name,
                        ap (contains_key id) p.revisions
                            ∙ contains_key-insert id id dir s.revisions
                            ∙ (rw (same_refl id)),
                      );
                      apart = λ o. elim o [ inl a ↦ cc a | inr a ↦ cc a ];
                      accepted = λ d done got. cc done;
                      published = λ d done got.
                          k.accepted d state (cc (got, held, there, ap (get id) p.revisions));
                    })
            ]
      ]
]

-- A call of the transaction.
pub data Call : Type 0 where
  stage_call : Name → List ℕ → Call
  validate_call commit_call rollback_call : Call

-- The transaction and the store after a call.
unfoldable pub call : Validator → RevisionTransaction × Store → Call → RevisionTransaction × Store
call v (tx, s) (stage_call name bytes) = (tx, (stage tx name bytes s).0)
call v (tx, s) validate_call = ((validate v tx s).0, s)
call v (tx, s) commit_call = (commit tx s).0
call v (tx, s) rollback_call = (rollback tx s).0

unfoldable pub calls :
    Validator → RevisionTransaction × Store → List Call → RevisionTransaction × Store
unfolding call
calls v r [] = r
calls v r (c ∷ cs) = calls v (call v r c) cs

call-IsSound :
    (v : Validator) (r : RevisionTransaction × Store) (c : Call)
    → IsSound v r.0 r.1
    → IsSound v (call v r c).0 (call v r c).1
unfolding call
call-IsSound v (tx, s) (stage_call name bytes) k = stage-IsSound v tx name bytes s k
call-IsSound v (tx, s) validate_call k = validate-IsSound v tx s k
call-IsSound v (tx, s) commit_call k = commit-IsSound v tx s k
call-IsSound v (tx, s) rollback_call k = rollback-IsSound v tx s k

-- Over any calls in any order, with any faults of the file system between and inside them, from a
-- sound start: the pointer is not there or what it says is a path that leads from the revisions to
-- one that is there, and a committed revision that is there is a directory that the validator
-- accepted.
pub calls-IsSound :
    (v : Validator) (r : RevisionTransaction × Store) (cs : List Call)
    → IsSound v r.0 r.1
    → IsSound v (calls v r cs).0 (calls v r cs).1
unfolding calls
calls-IsSound v r [] k = k
calls-IsSound v r (c ∷ cs) k = calls-IsSound v (call v r c) cs (call-IsSound v r c k)
