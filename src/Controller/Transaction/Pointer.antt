-- ===== src/Controller/Transaction/Pointer.antt =====
-- What `write_pointer` does to the store, whether it succeeds or not.
use smart_fec_tunnel.Base.{
  ℕ, ◌≡◌, refl, Bool, true, not, ◌||◌, if◌then◌else◌, Bool-cases, inl, inr, some, List, [], ◌∷◌,
  ◌++◌, arith,
}
use smart_fec_tunnel.Base.Bytes.{bytes_eq}
use smart_fec_tunnel.Base.Maps.{byte_string_key, get, contains_key, insert, remove, get-insert}
use smart_fec_tunnel.Controller.Transaction.{
  Name, Dir, Store, attempt, current, current_temporary, put_file, swap_pointer, sync_pointer,
  fill_pointer, write_pointer,
}

-- The outcome of a call does not depend on the store's files, and taking it changes nothing else.
pub attempt_cases :
    (s : Store) → (fs : List Bool) × (b : Bool) × (attempt s ≡ (record s { faults = fs }, b))
unfolding attempt
attempt_cases s = by_faults s s.faults refl
  where
    by_faults :
        (s : Store) (fs : List Bool)
        → s.faults ≡ fs
        → (gs : List Bool) × (b : Bool) × (attempt s ≡ (record s { faults = gs }, b))
    by_faults s [] e = (s.faults, true, rw e)
    by_faults s (f ∷ fs) e = (fs, not f, rw e)

get-temporary :
    (bytes : List ℕ) (files : Dir)
    → get current (insert current_temporary bytes files) ≡ get current files
unfolding bytes_eq
get-temporary bytes files = get-insert current current_temporary bytes files

get-current : (bytes : List ℕ) (files : Dir) → get current (insert current bytes files) ≡ some bytes
unfolding bytes_eq
get-current bytes files = get-insert current current bytes files

-- What a step of `write_pointer` leaves: the revisions and candidates as before, and `current` with
-- the new content if it succeeded and as before if not.
pub record IsPointed (content : List ℕ) (s : Store) (r : Store × Bool) : Type 0 where
  pub revisions : r.0.revisions ≡ s.revisions
  pub candidates : r.0.candidates ≡ s.candidates
  pub pointer : get current r.0.files ≡ (if r.1 then some content else get current s.files)

swap_pointer-IsPointed :
    (content : List ℕ) (s : Store) → IsPointed content s (swap_pointer content s)
unfolding swap_pointer
swap_pointer-IsPointed content s =
    let (fs, well, e) = attempt_cases s in
    elim (Bool-cases well) [
      | inl w ↦
          rw (e, w)
            (record {
              revisions = refl;
              candidates = refl;
              pointer = get-current content (remove current_temporary s.files);
            })
      | inr w ↦ rw (e, w) (record { revisions = refl; candidates = refl; pointer = refl })
    ]

-- A step that goes on with the temporary file changed.
IsPointed-put :
    (content bytes : List ℕ) (s : Store) (fs : List Bool) (r : Store × Bool)
    → IsPointed content (put_file current_temporary bytes (record s { faults = fs })) r
    → IsPointed content s r
IsPointed-put content bytes s fs r p = record {
  revisions = p.revisions;
  candidates = p.candidates;
  pointer = ground (arith, p.pointer, get-temporary bytes s.files);
}

sync_pointer-IsPointed :
    (content : List ℕ) (s : Store) → IsPointed content s (sync_pointer content s)
unfolding sync_pointer
sync_pointer-IsPointed content s =
    let (fs, well, e) = attempt_cases s in
    elim (Bool-cases well) [
      | inl w ↦
          let p = swap_pointer-IsPointed content (record s { faults = fs }) in
          rw (e, w)
            (record { revisions = p.revisions; candidates = p.candidates; pointer = p.pointer })
      | inr w ↦ rw (e, w) (record { revisions = refl; candidates = refl; pointer = refl })
    ]

fill_pointer-IsPointed :
    (content : List ℕ) (s : Store) → IsPointed content s (fill_pointer content s)
unfolding fill_pointer
fill_pointer-IsPointed content s =
    let (fs, well, e) = attempt_cases s in
    elim (Bool-cases well) [
      | inl w ↦ rw (e, w) (IsPointed-put content content s fs _ (sync_pointer-IsPointed content _))
      | inr w ↦ rw (e, w) (record { revisions = refl; candidates = refl; pointer = refl })
    ]

pub write_pointer-IsPointed :
    (revision : Name) (s : Store) → IsPointed (revision ++ b'\n' ∷ []) s (write_pointer revision s)
unfolding write_pointer
write_pointer-IsPointed revision s =
    let (fs, well, e) = attempt_cases s in
    elim (Bool-cases (not well || contains_key current_temporary s.files)) [
      | inl blocked ↦
          rw (e, blocked) (record { revisions = refl; candidates = refl; pointer = refl })
      | inr opened ↦
          rw (e, opened)
            (IsPointed-put (revision ++ b'\n' ∷ []) [] s fs _ (fill_pointer-IsPointed _ _))
    ]
