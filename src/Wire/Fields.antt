-- ===== src/Wire/Fields.antt =====
-- Where the fields of a frame stand in what `encode` and `encode_wire` write.
use smart_fec_tunnel.Base.{◌+◌, ◌%◌, ◌^◌, ◌<◌, ◌≡◌, refl, sym, subst, ◌∷◌, length, drop, arith}
use smart_fec_tunnel.Base.Bytes.{be, from_be, slice, from_be-be}
use smart_fec_tunnel.Wire.{Frame, fields, frame_at}

-- Every field is in the range of its machine type, and the payload's length fits a `u16`.
pub record IsFrame (f : Frame) : Type 0 where
  pub session_range : f.session < 256 ^ 8
  pub sequence_range : f.sequence < 256 ^ 8
  pub group_range : f.group < 256 ^ 8
  pub index_range : f.index < 256 ^ 2
  pub payload_range : length f.payload < 256 ^ 2

module _ (f : Frame) where
  pub length-fields : length (fields f) ≡ 30 + length f.payload
  unfolding fields be
  length-fields = omega arith

  -- Read back behind one byte, as `decode_v3` does.
  pub frame_at-fields :
      IsFrame f → frame_at f.version f.key_id f.kind 1 f.payload (f.kind ∷ fields f) ≡ f
  unfolding frame_at fields be
  frame_at-fields r = λ i. record f {
    session = from_be-be 8 f.session r.session_range i;
    sequence = from_be-be 8 f.sequence r.sequence_range i;
    group = from_be-be 8 f.group r.group_range i;
    index = from_be-be 2 f.index r.index_range i;
  }

  pub payload_length : IsFrame f → from_be (slice 29 31 (f.kind ∷ fields f)) ≡ length f.payload
  unfolding fields be
  payload_length r =
      let e : length f.payload % 65536 ≡ length f.payload = omega arith in
      subst (λ n. from_be (be 2 n) ≡ length f.payload) (sym e)
        (from_be-be 2 (length f.payload) r.payload_range)

  pub payload_slice : drop 31 (f.kind ∷ fields f) ≡ f.payload
  unfolding fields be
  payload_slice = refl
