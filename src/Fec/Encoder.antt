-- ===== src/Fec/Encoder.antt =====
-- src/main.rs, `Encoder`: fragments of datagrams are gathered into groups of up to ten data
-- shards, and a group is sent with the repair shards that the controller asks for. `force_parity`
-- is `none` in a release build. `flush` of an error keeps its shards, as `?` returns early.
pub mod Parity
pub mod Output
pub mod Total
use smart_fec_tunnel.Base.{
  ℕ, zero, suc, ◌+◌, ◌*◌, ◌%◌, ◌≡◌, min, max, Bool, true, false, ltb, ◌==◌, if◌then◌else◌, Option,
  none, some, List, [], ◌∷◌, ◌++◌, length, replicate, ◌-◌, Result, ok, err,
}
use smart_fec_tunnel.Base.Bytes.{be}
use smart_fec_tunnel.Base.Chunks.{chunks, div_ceil}
use smart_fec_tunnel.Adaptive.{Adaptive, default, max_parity}
use smart_fec_tunnel.Wire.{Frame, kind_data, kind_parity, kind_report}
use smart_fec_tunnel.Fec.{ReedSolomon, chunk_size, data_shards, fragment_header, next_u64}

pub record Encoder : Type 0 where
  pub version : ℕ
  pub key_id : ℕ
  pub session : ℕ
  pub sequence : ℕ
  pub packet : ℕ
  pub group : ℕ
  pub shards : List (List ℕ)
  pub adaptive : Adaptive
  pub force_parity : Option ℕ

pub data EncodeError : Type 0 where
  datagram_too_large code_failed : EncodeError

-- Encoder::with_identity
abbrev pub with_identity : ℕ → ℕ → ℕ → Option ℕ → Encoder
with_identity session version key_id force_parity = record {
  version = version;
  key_id = key_id;
  session = session;
  sequence = 1;
  packet = 1;
  group = 1;
  shards = [];
  adaptive = default;
  force_parity = force_parity;
}

-- Encoder::report_frame
unfoldable pub report_frame : Encoder → ℕ → Encoder × Frame
report_frame e loss_ppm = (
  record e { sequence = next_u64 e.sequence },
  record {
    version = e.version;
    key_id = e.key_id;
    kind = kind_report;
    session = e.session;
    sequence = e.sequence;
    group = 0;
    index = 0;
    data_count = 0;
    parity_count = 0;
    payload = be 4 loss_ppm;
  },
)

-- The number of repair shards for a group of `data` shards.
unfoldable pub group_parity : Encoder → ℕ → ℕ
group_parity e data_count =
    min
      (elim e.force_parity [
        | some p ↦ min p data_count
        | none ↦
            if e.adaptive.parity == 0
            then 0
            else if ltb data_count data_shards
            then min e.adaptive.parity data_count
            else div_ceil (data_count * e.adaptive.parity) data_shards
      ])
      max_parity

-- `shards.iter().map(Vec::len).max()`; `flush` calls it on at least one shard.
unfoldable pub max_length : List (List ℕ) → ℕ
max_length [] = 0
max_length (s ∷ ss) = max (length s) (max_length ss)

-- `shard.resize(n, 0)` to a length that is not smaller.
unfoldable pub resize : ℕ → List ℕ → List ℕ
resize n s = s ++ replicate (n - length s) 0

unfoldable pub resize_all : ℕ → List (List ℕ) → List (List ℕ)
unfolding resize
resize_all n [] = []
resize_all n (s ∷ ss) = resize n s ∷ resize_all n ss

-- A loop of `flush`: one frame for each shard, from `index` on, each with the next sequence number.
unfoldable pub emit : Encoder → ℕ → ℕ → ℕ → ℕ → List (List ℕ) → Encoder × List Frame
emit e kind data_count parity index [] = (e, [])
emit e kind data_count parity index (shard ∷ shards) =
    let rest =
      emit (record e { sequence = next_u64 e.sequence }) kind data_count parity (index + 1)
        shards in
    (
      rest.0,
      record {
        version = e.version;
        key_id = e.key_id;
        kind = kind;
        session = e.session;
        sequence = e.sequence;
        group = e.group;
        index = index % 65536;
        data_count = data_count % 256;
        parity_count = parity % 256;
        payload = shard;
      }
          ∷ rest.1,
    )

-- `self.shards.clear(); self.group += 1`
abbrev pub close : Encoder → Encoder
close e = record e { shards = []; group = next_u64 e.group }

-- A shard of `encode_datagram`.
unfoldable pub fragment_shard : ℕ → ℕ → ℕ → List ℕ → List ℕ
fragment_shard packet_id index count chunk =
    be 8 packet_id
    ++ (be 2 (index % 65536) ++ (be 2 (count % 65536) ++ (be 2 (length chunk % 65536) ++ chunk)))

-- The shards of a datagram's chunks, from `index` on.
abbrev pub fragment_shards : ℕ → ℕ → ℕ → List (List ℕ) → List (List ℕ)
fragment_shards packet_id count index [] = []
fragment_shards packet_id count index (c ∷ cs) =
    fragment_shard packet_id index count c ∷ fragment_shards packet_id count (index + 1) cs

-- `if payload.is_empty() { vec![&[]] } else { payload.chunks(CHUNK).collect() }`
unfoldable pub datagram_chunks : List ℕ → List (List ℕ)
datagram_chunks [] = [] ∷ []
datagram_chunks (x ∷ xs) = chunks chunk_size (x ∷ xs)

-- `frames.extend(...)` with the result of a later step, where `?` stops at the first error.
abbrev pub append_frames :
    Encoder × Result EncodeError (List Frame)
    → Encoder × Result EncodeError (List Frame)
    → Encoder × Result EncodeError (List Frame)
append_frames (e, err x) later = (e, err x)
append_frames (e, ok frames) (later, err x) = (later, err x)
append_frames (e, ok frames) (later, ok more) = (later, ok (frames ++ more))

module _ (code : ReedSolomon) where
  -- `flush` from the parity on.
  unfoldable pub flush_group : Encoder → ℕ → Encoder × Result EncodeError (List Frame)
  flush_group e zero =
      let sent = emit e kind_data (length e.shards) 0 0 e.shards in (close sent.0, ok sent.1)
  flush_group e (suc p) =
      let count = length e.shards in
      let padded : Encoder = record e { shards = resize_all (max_length e.shards) e.shards } in
      let sent = emit padded kind_data count (suc p) 0 padded.shards in
      elim (code.encode count (suc p) padded.shards) [
        | none ↦ (sent.0, err code_failed)
        | some repair ↦
            let more = emit sent.0 kind_parity count (suc p) count repair in
            (close more.0, ok (sent.1 ++ more.1))
      ]

  -- Encoder::flush
  unfoldable pub flush : Encoder → Encoder × Result EncodeError (List Frame)
  unfolding flush_group group_parity
  flush e =
      if length e.shards == 0 then (e, ok []) else flush_group e (group_parity e (length e.shards))

  -- `self.shards.push(shard)`, and `flush` of a group that is full.
  unfoldable pub push_shard : Encoder → List ℕ → Encoder × Result EncodeError (List Frame)
  unfolding flush
  push_shard e shard =
      let pushed : Encoder = record e { shards = e.shards ++ shard ∷ [] } in
      if length pushed.shards == data_shards then flush pushed else (pushed, ok [])

  -- The loop of `encode_datagram`.
  unfoldable pub push_chunks :
      Encoder → ℕ → ℕ → ℕ → List (List ℕ) → Encoder × Result EncodeError (List Frame)
  unfolding push_shard fragment_shard
  push_chunks e packet_id count index [] = (e, ok [])
  push_chunks e packet_id count index (c ∷ cs) =
      let step = push_shard e (fragment_shard packet_id index count c) in
      let rest = push_chunks step.0 packet_id count (index + 1) cs in append_frames step rest

  -- Encoder::encode_datagram
  unfoldable pub encode_datagram : Encoder → List ℕ → Encoder × Result EncodeError (List Frame)
  unfolding push_chunks datagram_chunks
  encode_datagram e payload =
      let counted : Encoder = record e { packet = next_u64 e.packet } in
      let count = div_ceil (max (length payload) 1) chunk_size in
      if ltb 65535 count
      then (counted, err datagram_too_large)
      else push_chunks counted e.packet count 0 (datagram_chunks payload)
