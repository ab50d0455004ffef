-- ===== src/Controller/Transaction/Restore.antt =====
-- A rollback keeps a transaction sound.
use smart_fec_tunnel.Base.{
  ◌&&◌, true, ◌⊎◌, arith, ◌≡◌, sym, ap, ◌∙◌, Bool, false, Bool-cases, Option-cases, inl, inr, List,
}
use smart_fec_tunnel.Base.Maps.{byte_string_key, get, contains_key}
use smart_fec_tunnel.Controller.Transaction.{
  Name, Store, committed, RevisionTransaction, same_state, Validator, write_pointer, entry_of,
  is_revision_dir, restore, rollback,
}
use smart_fec_tunnel.Controller.Transaction.Names.{LeadsTo, entry_of-LeadsTo}
use smart_fec_tunnel.Controller.Transaction.Pointer.{attempt_cases, write_pointer-IsPointed}
use smart_fec_tunnel.Controller.Transaction.Sound.{
  PointsToRevision-same, IsSound, IsSound-faults, same_state→eq,
}

-- A previous revision that is found is one that its name leads to.
is_revision_dir_cases :
    (previous : Name) (s : Store)
    → ((fs : List Bool) × (is_revision_dir previous s ≡ (record s { faults = fs }, false)))
      ⊎ ((fs : List Bool) × (id : Name) × (is_revision_dir previous s
            ≡ (record s { faults = fs }, true))
          × LeadsTo previous id
          × (contains_key id s.revisions ≡ true))
unfolding is_revision_dir
is_revision_dir_cases previous s =
    let (fs, well, e) = attempt_cases s in
    elim (Option-cases (entry_of previous)) [
      | inl nowhere ↦ inl (fs, rw (is_revision_dir, nowhere, e))
      | inr (id, leads) ↦ elim (Bool-cases (well && contains_key id s.revisions)) [
        | inr missing ↦ inl (fs, rw (is_revision_dir, leads, e, missing))
        | inl there ↦ inr (
          fs,
          id,
          rw (is_revision_dir, leads, e, there),
          entry_of-LeadsTo previous id leads,
          ground arith,
        )
      ]
    ]

restore-IsSound :
    (v : Validator) (tx : RevisionTransaction) (previous : Name) (s : Store)
    → tx.state ≡ committed
    → IsSound v tx s
    → let r = restore tx previous s in IsSound v r.0.0 r.0.1
unfolding restore
restore-IsSound v tx previous s state k = elim (is_revision_dir_cases previous s) [
  | inl (fs, missing) ↦ rw (restore, missing) (IsSound-faults v tx s fs k)
  | inr (fs, id, found, leads, there) ↦
      let s1 : Store = record s { faults = fs } in
      let p = write_pointer-IsPointed previous s1 in
      elim (Bool-cases (write_pointer previous s1).1) [
        | inr failed ↦
            rw (restore, found, failed)
              (record {
                own_name = k.own_name;
                pointer =
                    PointsToRevision-same s (write_pointer previous s1).0 p.revisions
                      (p.pointer ∙ (rw failed)) k.pointer;
                apart = λ o. elim o [ inl a ↦ cc (a, state) | inr a ↦ cc (a, state) ];
                accepted = λ d done got. cc (done, state);
                published = λ d done got.
                    k.published d done (sym (ap (get tx.revision_id) p.revisions) ∙ got);
              })
        | inl pointed ↦
            rw (restore, found, pointed)
              (record {
                own_name = k.own_name;
                pointer = inr (
                  previous,
                  id,
                  p.pointer ∙ (rw pointed),
                  leads,
                  ap (contains_key id) p.revisions ∙ there,
                );
                apart = λ o. elim o [ inl a ↦ cc a | inr a ↦ cc a ];
                accepted = λ d done got. cc done;
                published = λ d done got. cc done;
              })
      ]
]

pub rollback-IsSound :
    (v : Validator) (tx : RevisionTransaction) (s : Store)
    → IsSound v tx s
    → let r = rollback tx s in IsSound v r.0.0 r.0.1
unfolding rollback
rollback-IsSound v tx s k = elim (Bool-cases (same_state tx.state committed)) [
  | inr closed ↦ rw (rollback, closed) k
  | inl open_state ↦ elim (Option-cases tx.previous) [
    | inl unnamed ↦ rw (rollback, open_state, unnamed) k
    | inr (previous, named) ↦
        rw (rollback, open_state, named)
          (restore-IsSound v tx previous s (same_state→eq tx.state committed open_state) k)
  ]
]
