-- ===== src/Controller/Tests.antt =====
-- The tests of src/controller.rs, run, and the theorems at concrete inputs.
use smart_fec_tunnel.Base.Text.{decimal_from, decimal}
use smart_fec_tunnel.Base.{
  ◌≡◌, refl, ◌↔◌, ◌<◌, true, false, Option, none, some, List, [], ◌∷◌, ◌++◌, Result, ok, err, inl,
  inr,
}
use smart_fec_tunnel.Base.Bytes.{bytes_eq}
use smart_fec_tunnel.Base.Maps.{byte_string_key, get, contains_key, insert, remove}
use smart_fec_tunnel.Config.{enhanced}
use smart_fec_tunnel.Controller.Plan.{
  PortBinding, IoError, addr_in_use, tcp, udp, unspecified, Cli, main,
}
use smart_fec_tunnel.Controller.Plan.Main.{Succeeds, main_iff}
use smart_fec_tunnel.Controller.Transaction.{
  Name, Store, candidate, validated, invalid_state, invalid_artifact_name, RevisionTransaction,
  attempt, split_slash, later_components, is_absolute, components, is_plain_file_name, has_slash,
  revision_name, create_candidate, begin, stage_file, stage, Validator, validate, current,
  swap_pointer, sync_pointer, fill_pointer, write_pointer, publish, withdraw, commit, entry_of,
  is_revision_dir, restore, rollback,
}
use smart_fec_tunnel.Controller.Transaction.Sound.{IsSound}
use smart_fec_tunnel.Controller.Transaction.Runs.{
  Call, stage_call, validate_call, commit_call, rollback_call, call, calls, calls-IsSound,
}
use smart_fec_tunnel.Controller.Transaction.Retry.{AllFail, failed_write-AllFail}
use smart_fec_tunnel.Controller.Transaction.Names.{walk, plain-walk}

program : Unit {0}
unfolding bytes_eq get contains_key insert remove attempt split_slash later_components components
    is_plain_file_name has_slash decimal_from decimal revision_name create_candidate begin
    stage_file stage validate swap_pointer sync_pointer fill_pointer write_pointer publish withdraw
    commit entry_of is_revision_dir restore rollback call calls walk
program = tt

-- "a", and the validator that wants it there.
abbrev name : Name
name = b'a' ∷ []

abbrev require_file : Validator
require_file none = err []
require_file (some []) = err []
require_file (some (f ∷ fs)) = ok tt

abbrev empty : Store
empty = record { candidates = []; revisions = []; files = []; faults = [] }

abbrev transaction : Option Name → Name → RevisionTransaction
transaction previous id = record { previous = previous; revision_id = id; state = candidate }

abbrev first_id : Name
first_id = b'r' ∷ b'e' ∷ b'v' ∷ b'-' ∷ b'5' ∷ b'-' ∷ b'1' ∷ b'2' ∷ []

abbrev second_id : Name
second_id = b'r' ∷ b'e' ∷ b'v' ∷ b'-' ∷ b'6' ∷ b'-' ∷ b'1' ∷ b'2' ∷ []

abbrev with_candidate : Name → Store → Store
with_candidate id s = record s { candidates = (id, []) ∷ s.candidates }

begun :
    begin none (some 5) 12 empty ≡ (with_candidate first_id empty, ok (transaction none first_id))
unfolding program
begun = refl

traversal_rejected :
    (stage
      (transaction none first_id)
      (b'.' ∷ b'.' ∷ b'/' ∷ name)
      []
      (with_candidate first_id empty)).1
    ≡ err invalid_artifact_name
unfolding program
traversal_rejected = refl

-- transaction_requires_validation_and_can_rollback
abbrev first_run : RevisionTransaction × Store
unfolding program
first_run =
    calls require_file (transaction none first_id, with_candidate first_id empty)
      (stage_call name (7 ∷ []) ∷ validate_call ∷ commit_call ∷ [])

abbrev second_start : RevisionTransaction × Store
unfolding program
second_start = (transaction (some first_id) second_id, with_candidate second_id first_run.1)

commit_needs_validation :
    (commit second_start.0 second_start.1).1 ≡ err (invalid_state validated candidate)
unfolding program
commit_needs_validation = refl

abbrev second_calls : List Call
second_calls =
    stage_call name (8 ∷ []) ∷ commit_call ∷ validate_call ∷ commit_call ∷ rollback_call ∷ []

rolled_back_to_first :
    get current (calls require_file second_start second_calls).1.files
    ≡ some (first_id ++ b'\n' ∷ [])
unfolding program
rolled_back_to_first = refl

-- The name of the previous revision may end with a slash; the pointer keeps it.
abbrev slash_start : RevisionTransaction × Store
unfolding program
slash_start =
    (transaction (some (first_id ++ b'/' ∷ [])) second_id, with_candidate second_id first_run.1)

rolled_back_with_slash :
    get current (calls require_file slash_start second_calls).1.files
    ≡ some (first_id ++ b'/' ∷ b'\n' ∷ [])
unfolding program
rolled_back_with_slash = refl

failed_validation :
    (validate require_file (transaction none first_id) (with_candidate first_id empty)).0.state
    ≡ candidate
unfolding program
failed_validation = refl

start-IsSound : IsSound require_file (transaction none first_id) (with_candidate first_id empty)
unfolding get contains_key bytes_eq split_slash walk
start-IsSound = record {
  own_name = (refl, refl);
  pointer = inl refl;
  apart = λ o. inr refl;
  accepted = λ d done got. cc;
  published = λ d done got. cc;
}

calls-IsSound_example :
    let r =
      calls require_file
        (transaction none first_id, with_candidate first_id empty)
        (stage_call name (7 ∷ []) ∷ validate_call ∷ commit_call ∷ []) in
    IsSound require_file r.0 r.1
calls-IsSound_example =
    calls-IsSound require_file (transaction none first_id, with_candidate first_id empty)
      (stage_call name (7 ∷ []) ∷ validate_call ∷ commit_call ∷ []) start-IsSound

-- A validated candidate with one file.
abbrev ready : RevisionTransaction
ready = record (transaction none first_id) { state = validated }

abbrev ready_store : Store
ready_store = record empty { candidates = (first_id, (name, 7 ∷ []) ∷ []) ∷ [] }

failed_write-AllFail_example :
    AllFail 3 ready (record ready_store { faults = false ∷ false ∷ true ∷ [] })
unfolding get contains_key bytes_eq
failed_write-AllFail_example =
    failed_write-AllFail 2 ready ready_store ((name, 7 ∷ []) ∷ []) refl refl refl refl

plain-walk_example :
    (is_absolute name ≡ false)
    × ((n : Name) × (walk (first_id ∷ []) (split_slash name) ≡ n ∷ first_id ∷ []))
unfolding is_plain_file_name components split_slash later_components
plain-walk_example = plain-walk name (first_id ∷ []) refl

-- Only the UDP port is taken.
abbrev taken_udp : PortBinding → Result IoError (Unit {0})
taken_udp b = elim b.protocol [ tcp ↦ ok tt | udp ↦ err addr_in_use ]

abbrev cli : Cli
cli = record { profile = enhanced; bandwidth_mbps = 30; tcp_port = 443; udp_port = 443 }

main_iff_example : Succeeds (main taken_udp cli) ↔ (
    (0 < 30)
    × (0 < 443)
    × (0 < 443)
    × (taken_udp (record {
      address = unspecified;
      port = 443;
      protocol = tcp;
      owner = "smart-gateway-public";
    })
        ≡ ok tt)
    × (taken_udp (record {
      address = unspecified;
      port = 443;
      protocol = udp;
      owner = "smart-gateway-transport";
    })
        ≡ ok tt))
main_iff_example = main_iff taken_udp cli
