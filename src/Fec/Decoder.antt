-- ===== src/Fec/Decoder.antt =====
-- src/main.rs, `Decoder`: its frames, groups and expiry. `Instant::now()` is an argument, in
-- milliseconds, and one value for a call. `sort_unstable_by_key` puts entries that are equally old
-- in any order; here they stay in the order of the map.
pub mod Holding
pub mod Stored
pub mod Recovery
use smart_fec_tunnel.Base.{
  ℕ, ◌+◌, ◌-◌, Bool, true, false, not, ◌&&◌, ◌||◌, ltb, leb, ◌==◌, if◌then◌else◌, Option, none,
  some, List, [], ◌∷◌, ◌++◌, map, length, get_elem?, set, take, replicate, Result, ok, err,
}
use smart_fec_tunnel.Base.Maps.{nat_key, get, contains_key, insert, remove, retain}
use smart_fec_tunnel.Sequence.{Window, observe_seq}
use smart_fec_tunnel.Wire.{Frame, kind_data, kind_parity, kind_report}
use smart_fec_tunnel.Fec.{ReedSolomon, fragment_header, shard_size}
use smart_fec_tunnel.Fec.Fragment.{Reassembly, Packets, fragment}

abbrev pub group_ttl : ℕ
group_ttl = 2000

abbrev pub reassembly_ttl : ℕ
reassembly_ttl = 3000

abbrev pub max_groups : ℕ
max_groups = 2048

abbrev pub max_reassemblies : ℕ
max_reassemblies = 4096

pub record Group : Type 0 where
  pub created : ℕ
  pub data_count : ℕ
  pub parity_count : ℕ
  pub shards : List (Option (List ℕ))
  pub delivered : List Bool

pub record Decoder : Type 0 where
  pub session : ℕ
  pub window : Window
  pub groups : List (ℕ × Group)
  pub packets : Packets

pub data DecodeError : Type 0 where
  session_mismatch invalid_fec_frame too_many_groups group_mismatch code_failed : DecodeError

-- The oldest entries first.
unfoldable pub insert_by_age : ℕ × ℕ → List (ℕ × ℕ) → List (ℕ × ℕ)
insert_by_age x [] = x ∷ []
insert_by_age x (y ∷ ys) = if leb x.1 y.1 then x ∷ y ∷ ys else y ∷ insert_by_age x ys

unfoldable pub by_age : List (ℕ × Reassembly) → List (ℕ × ℕ)
by_age [] = []
by_age ((id, r) ∷ packets) = insert_by_age (id, r.created) (by_age packets)

unfoldable pub remove_all : List (ℕ × ℕ) → Packets → Packets
remove_all [] packets = packets
remove_all (x ∷ oldest) packets = remove_all oldest (remove x.0 packets)

-- The last `if` of `prune`.
unfoldable pub evict_oldest : Packets → Packets
unfolding by_age insert_by_age remove_all
evict_oldest packets =
    if ltb max_reassemblies (length packets)
    then remove_all (take (length packets - max_reassemblies) (by_age packets)) packets
    else packets

-- Decoder::prune
unfoldable pub prune : ℕ → Decoder → Decoder
unfolding evict_oldest
prune now d = record d {
  groups = retain (λ g. ltb (now - g.created) group_ttl) d.groups;
  packets = evict_oldest (retain (λ r. ltb (now - r.created) reassembly_ttl) d.packets);
}

-- `shards.iter().filter(|x| x.is_some()).count()`
unfoldable pub present : List (Option (List ℕ)) → ℕ
present [] = 0
present (none ∷ shards) = present shards
present (some s ∷ shards) = present shards + 1

-- `delivered.iter().any(|x| !*x)`
unfoldable pub any_undelivered : List Bool → Bool
any_undelivered [] = false
any_undelivered (true ∷ ds) = any_undelivered ds
any_undelivered (false ∷ ds) = true

-- The shards of `0..data` that are there and not delivered.
unfoldable pub undelivered : List Bool → List (Option (List ℕ)) → List (List ℕ)
undelivered [] shards = []
undelivered (d ∷ ds) [] = []
undelivered (true ∷ ds) (s ∷ shards) = undelivered ds shards
undelivered (false ∷ ds) (none ∷ shards) = undelivered ds shards
undelivered (false ∷ ds) (some s ∷ shards) = s ∷ undelivered ds shards

-- `if g.shards[pos].is_none() { g.shards[pos] = Some(payload) }`
unfoldable pub keep : List (Option (List ℕ)) → ℕ → List ℕ → List (Option (List ℕ))
keep shards pos payload = elim (get_elem? shards pos) [
  | some none ↦ set shards pos (some payload)
  | _ ↦ shards
]

-- `pos < data && !g.delivered[pos]`
unfoldable pub is_undelivered : List Bool → ℕ → Bool
is_undelivered ds pos = elim (get_elem? ds pos) [ some false ↦ true | _ ↦ false ]

-- The group after the frame's shard is kept and marked, before the recovery.
unfoldable pub mark : Group → ℕ → List ℕ → Group
unfolding keep is_undelivered
mark g pos payload = record g {
  shards = keep g.shards pos payload;
  delivered = if is_undelivered g.delivered pos then set g.delivered pos true else g.delivered;
}

abbrev pub immediate : Group → ℕ → List ℕ → List (List ℕ)
immediate g pos payload = if is_undelivered g.delivered pos then payload ∷ [] else []

abbrev pub can_recover : Group → Bool
can_recover g =
    ltb 0 g.parity_count && (leb g.data_count (present g.shards) && any_undelivered g.delivered)

module _ (code : ReedSolomon) where
  -- `frame` on its group: the shards to deliver, the frame's own first.
  unfoldable pub absorb : Group → ℕ → List ℕ → Group × Result DecodeError (List (List ℕ))
  unfolding mark
  absorb g pos payload =
      let marked = mark g pos payload in
      if can_recover marked
      then (elim (code.reconstruct g.data_count g.parity_count marked.shards) [
        | none ↦ (marked, err code_failed)
        | some shards ↦ (
          record marked { shards = shards; delivered = map (λ x. true) marked.delivered },
          ok (immediate g pos payload ++ undelivered marked.delivered shards),
        )
      ])
      else (marked, ok (immediate g pos payload))

  -- The fragments of the shards to deliver.
  unfoldable pub fragment_all : Packets → ℕ → List (List ℕ) → Packets × List (List ℕ)
  fragment_all packets now [] = (packets, [])
  fragment_all packets now (s ∷ shards) =
      let first = fragment packets now s in
      let rest = fragment_all first.0 now shards in (rest.0, first.1 ++ rest.1)

  abbrev pub bad_frame : Frame → Bool
  bad_frame f =
      f.data_count == 0
      || (ltb 32 f.data_count
          || (ltb 16 f.parity_count
              || (leb (f.data_count + f.parity_count) f.index
                  || (ltb (length f.payload) fragment_header
                      || ltb shard_size (length f.payload)))))

  abbrev pub new_group : ℕ → Frame → Group
  new_group now f = record {
    created = now;
    data_count = f.data_count;
    parity_count = f.parity_count;
    shards = replicate (f.data_count + f.parity_count) none;
    delivered = replicate f.data_count false;
  }

  -- `frame` with the group that stands there or is made.
  unfoldable pub join_group :
      Decoder → ℕ → Frame → Group → Decoder × Result DecodeError (List (List ℕ))
  unfolding absorb fragment_all
  join_group d now f g =
      if not (g.data_count == f.data_count) || not (g.parity_count == f.parity_count)
      then (record d { groups = insert f.group g d.groups }, err group_mismatch)
      else (let (joined, out) = absorb g f.index f.payload in
          let groups = insert f.group joined d.groups in
          elim out [
            | err e ↦ (record d { groups = groups }, err e)
            | ok shards ↦
                let parts = fragment_all d.packets now shards in
                (prune now (record d { groups = groups; packets = parts.0 }), ok parts.1)
          ])

  -- `frame` from `self.prune()` on.
  unfoldable pub group_frame : Decoder → ℕ → Frame → Decoder × Result DecodeError (List (List ℕ))
  unfolding join_group
  group_frame d now f =
      if not (contains_key f.group d.groups) && leb max_groups (length d.groups)
      then (d, err too_many_groups)
      else (elim (get f.group d.groups) [
        | some g ↦ join_group d now f g
        | none ↦ join_group d now f (new_group now f)
      ])

  -- Decoder::frame
  unfoldable pub frame : Decoder → ℕ → Frame → Decoder × Result DecodeError (List (List ℕ))
  unfolding group_frame
  frame d now f =
      if not (d.session == f.session)
      then (d, err session_mismatch)
      else (let (window, fresh) = observe_seq d.window f.sequence in
          let seen : Decoder = record d { window = window } in
          if not fresh
          then (seen, ok [])
          else if f.kind == kind_report
          then (seen, ok [])
          else if not (f.kind == kind_data || f.kind == kind_parity)
          then (seen, ok [])
          else if bad_frame f
          then (seen, err invalid_fec_frame)
          else group_frame (prune now seen) now f)
