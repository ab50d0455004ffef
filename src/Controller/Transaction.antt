-- ===== src/Controller/Transaction.antt =====
-- src/controller.rs, `RevisionTransaction`: candidates of a configuration are staged in a directory
-- of their own, validated, moved to the revisions and made current by a pointer file, from which
-- the previous revision can be restored. The store holds what lies under the transaction's root;
-- every call of the file system takes its outcome from a list, where `true` makes it fail without
-- effect, so that faults come at any place. A name is its bytes. The clock and the process id are
-- arguments. `rename` is that of Unix, and `cfg!(windows)` is false.
mod Paths
pub mod Names
pub mod Pointer
pub mod Sound
pub mod Restore
pub mod Runs
pub mod Retry
unfoldable pub use Paths.*
use smart_fec_tunnel.Base.{
  ℕ, zero, suc, ◌+◌, ◌/◌, ◌%◌, Bool, true, false, not, ◌&&◌, ◌||◌, ltb, ◌==◌, if◌then◌else◌, Option,
  none, some, List, [], ◌∷◌, ◌++◌, Result, ok, err,
}
use smart_fec_tunnel.Base.Text.{decimal}
use smart_fec_tunnel.Base.Maps.{byte_string_key, get, contains_key, insert, remove}

-- The plain files of a directory.
abbrev pub Dir : Type 0
Dir = List (Name × List ℕ)

pub record Store : Type 0 where
  pub candidates : List (Name × Dir)
  pub revisions : List (Name × Dir)
  pub files : Dir
  pub faults : List Bool

pub data TransactionState : Type 0 where
  candidate validated committed rolled_back : TransactionState

pub data TransactionError : Type 0 where
  io : TransactionError
  invalid_state : TransactionState → TransactionState → TransactionError
  invalid_artifact_name : TransactionError
  validation : List ℕ → TransactionError
  no_previous_revision : TransactionError

-- The candidate's directory has the revision's name.
pub record RevisionTransaction : Type 0 where
  pub previous : Option Name
  pub revision_id : Name
  pub state : TransactionState

abbrev pub same_state : TransactionState → TransactionState → Bool
same_state candidate candidate = true
same_state validated validated = true
same_state committed committed = true
same_state rolled_back rolled_back = true
same_state a b = false

-- The outcome of the next call: `true` if it goes well.
unfoldable pub attempt : Store → Store × Bool
attempt s = elim s.faults [ [] ↦ (s, true) | f ∷ fs ↦ (record s { faults = fs }, not f) ]

-- format!("rev-{nanos}-{}", std::process::id())
unfoldable pub revision_name : ℕ → ℕ → Name
unfolding decimal
revision_name nanos pid = b'r' ∷ b'e' ∷ b'v' ∷ b'-' ∷ (decimal nanos ++ b'-' ∷ decimal pid)

abbrev pub is_bad_name : Option Name → Bool
is_bad_name none = false
is_bad_name (some value) = not (is_plain_file_name value)

-- `begin` from the creation of the candidate's directory on.
unfoldable pub create_candidate :
    Option Name → Name → Store → Store × Result TransactionError RevisionTransaction
create_candidate previous id s =
    let (s1, well) = attempt s in
    if not well || contains_key id s1.candidates then (s1, err io) else (
      record s1 { candidates = insert id [] s1.candidates },
      ok (record { previous = previous; revision_id = id; state = candidate }),
    )

-- RevisionTransaction::begin. The clock is `none` before the epoch.
unfoldable pub begin :
    Option Name → Option ℕ → ℕ → Store → Store × Result TransactionError RevisionTransaction
unfolding create_candidate
begin previous clock pid s =
    if is_bad_name previous
    then (s, err invalid_artifact_name)
    else (let (s1, first) = attempt s in
        let (s2, second) = attempt s1 in
        if not first then (s1, err io) else if not second then (s2, err io) else (elim clock [
          | none ↦ (s2, err io)
          | some nanos ↦ create_candidate previous (revision_name nanos pid) s2
        ]))

-- `.{name}.tmp`
abbrev pub temporary_name : Name → Name
temporary_name name = b'.' ∷ (name ++ b'.' ∷ b't' ∷ b'm' ∷ b'p' ∷ [])

abbrev pub put_candidate : Name → Dir → Store → Store
put_candidate id dir s = record s { candidates = insert id dir s.candidates }

-- `let _ = fs::remove_file(&temporary)`
abbrev pub drop_temporary : Name → Dir → Name → Store → Store
drop_temporary id dir temporary s =
    let (s1, well) = attempt s in if well then put_candidate id (remove temporary dir) s1 else s1

-- `stage` on the candidate's directory, once the names are checked. In the directory of a plain
-- name with a slash at its end nothing can be opened, as there is none.
unfoldable pub stage_file :
    Name → Dir → Name → List ℕ → Store → Store × Result TransactionError (Unit {0})
stage_file id dir name bytes s =
    let temporary = temporary_name name in
    let (s1, opened) = attempt s in
    if not opened || (has_slash name || contains_key temporary dir)
    then (s1, err io)
    else (let created = insert temporary [] dir in
        let (s2, written) = attempt (put_candidate id created s1) in
        if not written
        then (drop_temporary id created temporary s2, err io)
        else (let full = insert temporary bytes dir in
            let (s3, renamed) = attempt (put_candidate id full s2) in
            if not renamed
            then (drop_temporary id full temporary s3, err io)
            else (put_candidate id (insert name bytes (remove temporary full)) s3, ok tt)))

-- RevisionTransaction::stage
unfoldable pub stage :
    RevisionTransaction → Name → List ℕ → Store → Store × Result TransactionError (Unit {0})
unfolding stage_file
stage tx name bytes s =
    if not (same_state tx.state candidate)
    then (s, err (invalid_state candidate tx.state))
    else if not (is_plain_file_name name)
    then (s, err invalid_artifact_name)
    else (elim (get tx.revision_id s.candidates) [
      | none ↦ ((attempt s).0, err io)
      | some dir ↦ stage_file tx.revision_id dir name bytes s
    ])

-- CandidateValidator::validate; `none` is a directory that is not there.
abbrev pub Validator : Type 0
Validator = Option Dir → Result (List ℕ) (Unit {0})

-- RevisionTransaction::validate
unfoldable pub validate :
    Validator
    → RevisionTransaction
    → Store
    → RevisionTransaction × Result TransactionError (Unit {0})
validate v tx s =
    if not (same_state tx.state candidate)
    then (tx, err (invalid_state candidate tx.state))
    else (elim (v (get tx.revision_id s.candidates)) [
      | err why ↦ (tx, err (validation why))
      | ok _ ↦ (record tx { state = validated }, ok tt)
    ])

-- "current" and ".current.tmp"
abbrev pub current : Name
current = b'c' ∷ b'u' ∷ b'r' ∷ b'r' ∷ b'e' ∷ b'n' ∷ b't' ∷ []

abbrev pub current_temporary : Name
current_temporary = temporary_name current

abbrev pub put_file : Name → List ℕ → Store → Store
put_file name bytes s = record s { files = insert name bytes s.files }

-- The end of `write_pointer`: the temporary file takes the pointer's place.
unfoldable pub swap_pointer : List ℕ → Store → Store × Bool
swap_pointer content s =
    let (s1, renamed) = attempt s in
    if not renamed
    then (s1, false)
    else (record s1 { files = insert current content (remove current_temporary s1.files) }, true)

-- `write_pointer` from `sync_all` on.
unfoldable pub sync_pointer : List ℕ → Store → Store × Bool
unfolding swap_pointer
sync_pointer content s =
    let (s1, synced) = attempt s in if not synced then (s1, false) else swap_pointer content s1

-- `write_pointer` from `write_all` on.
unfoldable pub fill_pointer : List ℕ → Store → Store × Bool
unfolding sync_pointer
fill_pointer content s =
    let (s1, written) = attempt s in
    if not written
    then (s1, false)
    else sync_pointer content (put_file current_temporary content s1)

-- write_pointer, for the name `current`.
unfoldable pub write_pointer : Name → Store → Store × Bool
unfolding fill_pointer
write_pointer revision s =
    let (s1, opened) = attempt s in
    if not opened || contains_key current_temporary s1.files
    then (s1, false)
    else fill_pointer (revision ++ b'\n' ∷ []) (put_file current_temporary [] s1)

abbrev pub is_nonempty : Option Dir → Bool
is_nonempty (some (f ∷ fs)) = true
is_nonempty (some []) = false
is_nonempty none = false

-- `fs::rename(&self.candidate, &committed)`: it replaces an empty directory only.
unfoldable pub publish : Name → Store → Store × Bool
publish id s =
    let (s1, well) = attempt s in
    if not well then (s1, false) else (elim (get id s1.candidates) [
      | none ↦ (s1, false)
      | some dir ↦ if is_nonempty (get id s1.revisions) then (s1, false) else (
        record s1 { candidates = remove id s1.candidates; revisions = insert id dir s1.revisions },
        true,
      )
    ])

-- `let _ = fs::rename(&committed, &self.candidate)`
unfoldable pub withdraw : Name → Store → Store
withdraw id s =
    let (s1, well) = attempt s in
    if not well then s1 else (elim (get id s1.revisions) [
      | none ↦ s1
      | some dir ↦ if is_nonempty (get id s1.candidates) then s1 else record s1 {
        revisions = remove id s1.revisions;
        candidates = insert id dir s1.candidates;
      }
    ])

-- RevisionTransaction::commit
unfoldable pub commit :
    RevisionTransaction → Store → (RevisionTransaction × Store) × Result TransactionError (Unit {0})
commit tx s =
    if not (same_state tx.state validated)
    then ((tx, s), err (invalid_state validated tx.state))
    else (let (s1, moved) = publish tx.revision_id s in
        if not moved
        then ((tx, s1), err io)
        else (let (s2, pointed) = write_pointer tx.revision_id s1 in
            if not pointed
            then ((tx, withdraw tx.revision_id s2), err io)
            else ((record tx { state = committed }, s2), ok tt)))

-- self.root.join("revisions").join(previous).is_dir(), which is false where the call fails
unfoldable pub is_revision_dir : Name → Store → Store × Bool
unfolding entry_of
is_revision_dir previous s =
    let (s1, well) = attempt s in
    elim (entry_of previous) [
      | none ↦ (s1, false)
      | some id ↦ (s1, well && contains_key id s1.revisions)
    ]

-- `rollback` to a previous revision that the transaction names.
unfoldable pub restore :
    RevisionTransaction
    → Name
    → Store
    → (RevisionTransaction × Store) × Result TransactionError (Unit {0})
restore tx previous s =
    let (s1, found) = is_revision_dir previous s in
    if not found
    then ((tx, s1), err no_previous_revision)
    else (let (s2, pointed) = write_pointer previous s1 in
        if not pointed
        then ((tx, s2), err io)
        else ((record tx { state = rolled_back }, s2), ok tt))

-- RevisionTransaction::rollback
unfoldable pub rollback :
    RevisionTransaction → Store → (RevisionTransaction × Store) × Result TransactionError (Unit {0})
unfolding restore
rollback tx s =
    if not (same_state tx.state committed)
    then ((tx, s), err (invalid_state committed tx.state))
    else (elim tx.previous [
      | none ↦ ((tx, s), err no_previous_revision)
      | some previous ↦ restore tx previous s
    ])
