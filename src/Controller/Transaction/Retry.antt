-- ===== src/Controller/Transaction/Retry.antt =====
-- A pointer write that fails leaves its temporary file, and then no call of `commit` succeeds.
use smart_fec_tunnel.Base.{
  ℕ, zero, suc, ◌≡◌, refl, ap, ◌∙◌, Bool, true, false, not, ◌||◌, Bool-cases, inl, inr, some, List,
  [], ◌∷◌, err, arith,
}
use smart_fec_tunnel.Base.Bytes.{bytes_eq}
use smart_fec_tunnel.Base.Maps.{
  byte_string_key, get, contains_key, insert, remove, contains_key-insert,
}
use smart_fec_tunnel.Controller.Transaction.{
  Name, Dir, Store, validated, io, RevisionTransaction, same_state, attempt, current_temporary,
  fill_pointer, write_pointer, is_nonempty, publish, withdraw, commit,
}
use smart_fec_tunnel.Controller.Transaction.Pointer.{attempt_cases}
use smart_fec_tunnel.Controller.Transaction.Sound.{publish_cases, withdraw_cases}

abbrev pub IsBlocked : Store → Type 0
IsBlocked s = contains_key current_temporary s.files ≡ true

write_pointer-IsBlocked :
    (id : Name) (s : Store)
    → IsBlocked s
    → ((write_pointer id s).1 ≡ false) × IsBlocked (write_pointer id s).0
unfolding write_pointer
write_pointer-IsBlocked id s b =
    let (fs, well, e) = attempt_cases s in
    let stop : (not well || contains_key current_temporary s.files) ≡ true = ground arith in
    rw (e, stop) (refl, b)

publish-IsBlocked : (id : Name) (s : Store) → IsBlocked s → IsBlocked (publish id s).0
publish-IsBlocked id s b = elim (publish_cases id s) [
  | inl (fs, e) ↦ rw e b
  | inr (fs, dir, there, e) ↦ rw e b
]

withdraw-IsBlocked : (id : Name) (s : Store) → IsBlocked s → IsBlocked (withdraw id s)
withdraw-IsBlocked id s b = elim (withdraw_cases id s) [
  | inl (fs, e) ↦ rw e b
  | inr (fs, dir, there, e) ↦ rw e b
]

commit-IsBlocked :
    (tx : RevisionTransaction) (s : Store)
    → tx.state ≡ validated
    → IsBlocked s
    → let r = commit tx s in (r.0.0 ≡ tx) × (r.1 ≡ err io) × IsBlocked r.0.1
unfolding commit
commit-IsBlocked tx s v b =
    let open_state : same_state tx.state validated ≡ true = rw v in
    elim (Bool-cases (publish tx.revision_id s).1) [
      | inr kept ↦ rw (commit, open_state, kept) (refl, refl, publish-IsBlocked tx.revision_id s b)
      | inl moved ↦
          let (failed, still) =
            write_pointer-IsBlocked tx.revision_id (publish tx.revision_id s).0
              (publish-IsBlocked tx.revision_id s b) in
          rw (commit, open_state, moved, failed)
            (refl, refl, withdraw-IsBlocked tx.revision_id _ still)
    ]

-- `n` calls of `commit`, one after the other, all fail.
abbrev pub AllFail : ℕ → RevisionTransaction → Store → Type 0
AllFail zero tx s = Unit {0}
AllFail (suc n) tx s = let r = commit tx s in (r.1 ≡ err io) × AllFail n r.0.0 r.0.1

blocked-AllFail :
    (n : ℕ) (tx : RevisionTransaction) (s : Store)
    → tx.state ≡ validated
    → IsBlocked s
    → AllFail n tx s
blocked-AllFail zero tx s v b = tt
blocked-AllFail (suc n) tx s v b =
    let (same, failed, still) = commit-IsBlocked tx s v b in
    (
      failed,
      blocked-AllFail n (commit tx s).0.0 (commit tx s).0.1 (ap (λ t. t.state) same ∙ v) still,
    )

write_failed :
    (id : Name) (s : Store) (rest : List Bool)
    → contains_key current_temporary s.files ≡ false
    → let r = write_pointer id (record s { faults = false ∷ true ∷ rest }) in
      (r.1 ≡ false) × IsBlocked r.0
unfolding write_pointer fill_pointer attempt bytes_eq
write_failed id s rest free =
    rw free (refl, contains_key-insert current_temporary current_temporary [] s.files)

-- A validated candidate is committed, and the write of the new pointer fails once, after its
-- temporary file was created; after that the file system never fails. That commit and every later
-- one fail.
pub failed_write-AllFail :
    (n : ℕ) (tx : RevisionTransaction) (s : Store) (dir : Dir)
    → tx.state ≡ validated
    → get tx.revision_id s.candidates ≡ some dir
    → contains_key current_temporary s.files ≡ false
    → is_nonempty (get tx.revision_id s.revisions) ≡ false
    → AllFail (suc n) tx (record s { faults = false ∷ false ∷ true ∷ [] })
unfolding commit publish attempt
failed_write-AllFail n tx s dir v there free fresh =
    let id = tx.revision_id in
    let open_state : same_state tx.state validated ≡ true = rw v in
    let s1 : Store = record s {
      faults = false ∷ true ∷ [];
      candidates = remove id s.candidates;
      revisions = insert id dir s.revisions;
    } in
    let (failed, still) = write_failed id s1 [] free in
    rw (commit, open_state, there, fresh, failed)
      (refl, blocked-AllFail n tx _ v (withdraw-IsBlocked id _ still))
