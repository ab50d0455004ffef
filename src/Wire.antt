-- ===== src/Wire.antt =====
-- src/main.rs, `Frame` and its wire formats: V3 (encrypted), the one that clients and servers
-- speak, and the plain authenticated V1 and V2 that `Frame::decode` still reads. Numbers of the
-- frame are in the range of their machine types, and `payload.len() as u16` wraps. The random
-- nonce and selector suffix are arguments.
pub mod Fields
pub mod V3
pub mod Sound
mod Tests
use smart_fec_tunnel.Base.{
  ℕ, suc, ◌+◌, ◌-◌, ◌%◌, ◌≡◌, Bool, true, false, not, ◌||◌, ltb, ◌==◌, if◌then◌else◌, Option, none,
  some, List, [], ◌∷◌, ◌++◌, length, take, drop, Result, ok, err, ◌>>=◌, ◌>>◌, bail_if,
}
use smart_fec_tunnel.Base.Bytes.{be, from_be, slice, byte_at, bytes_eq}
use smart_fec_tunnel.Base.Maps.{byte_string_key, get}
use smart_fec_tunnel.Base.Crypto.{Blake3, Aead}

-- 0x5346_4543
abbrev pub magic : ℕ
magic = 1397114179

abbrev pub version_v1 : ℕ
version_v1 = 1

abbrev pub version_v2 : ℕ
version_v2 = 2

abbrev pub version_v3 : ℕ
version_v3 = 3

abbrev pub kind_data : ℕ
kind_data = 1

abbrev pub kind_parity : ℕ
kind_parity = 2

abbrev pub kind_report : ℕ
kind_report = 3

abbrev pub header_v1 : ℕ
header_v1 = 36

abbrev pub header_v2 : ℕ
header_v2 = 44

abbrev pub v3_selector : ℕ
v3_selector = 8

abbrev pub v3_selector_prefix_len : ℕ
v3_selector_prefix_len = 4

abbrev pub v3_nonce : ℕ
v3_nonce = 24

abbrev pub v3_inner_header : ℕ
v3_inner_header = 31

abbrev pub tag : ℕ
tag = 16

pub record Frame : Type 0 where
  pub version : ℕ
  pub key_id : ℕ
  pub kind : ℕ
  pub session : ℕ
  pub sequence : ℕ
  pub group : ℕ
  pub index : ℕ
  pub data_count : ℕ
  pub parity_count : ℕ
  pub payload : List ℕ

pub data WireError : Type 0 where
  short_frame short_v2_frame bad_version bad_auth bad_protocol bad_length : WireError
  encryption_failed invalid_envelope authentication_failed short_v3_payload : WireError
  short_v3_envelope unknown_selector legacy_removed : WireError

-- The fields from `session` to the payload, as `encode` and `encode_wire` write them.
unfoldable pub fields : Frame → List ℕ
fields f =
    be 8 f.session
    ++ (be 8 f.sequence
        ++ (be 8 f.group
            ++ (be 2 f.index
                ++ f.data_count ∷ f.parity_count ∷ (be 2 (length f.payload % 65536) ++ f.payload))))

-- Frame::encode, before the tag.
unfoldable pub body : Frame → List ℕ
body f =
    be 4 magic
    ++ f.version ∷ f.kind ∷ ((if f.version == version_v2 then be 8 f.key_id else []) ++ fields f)

-- The frame that `decode` and `decode_v3` read, its fields from `offset` on.
unfoldable pub frame_at : ℕ → ℕ → ℕ → ℕ → List ℕ → List ℕ → Frame
frame_at version key_id kind offset payload buf = record {
  version = version;
  key_id = key_id;
  kind = kind;
  session = from_be (slice offset (offset + 8) buf);
  sequence = from_be (slice (offset + 8) (offset + 16) buf);
  group = from_be (slice (offset + 16) (offset + 24) buf);
  index = from_be (slice (offset + 24) (offset + 26) buf);
  data_count = byte_at (offset + 26) buf;
  parity_count = byte_at (offset + 27) buf;
  payload = payload;
}

-- The `match version` of `decode`: the header's length, the key id and the offset of the fields.
unfoldable pub layout : List ℕ → Result WireError (ℕ × ℕ × ℕ)
layout buf =
    if byte_at 4 buf == version_v1
    then ok (header_v1, 0, 6)
    else if byte_at 4 buf == version_v2
    then (if ltb (length buf) (header_v2 + tag)
        then err short_v2_frame
        else ok (header_v2, from_be (slice 6 14 buf), 14))
    else err bad_version

module _ (b : Blake3) where
  -- Frame::encode
  unfoldable pub encode : Frame → List ℕ → List ℕ
  encode f key = let out = body f in out ++ take tag (b.keyed key out)

  -- Frame::decode
  unfoldable pub decode : List ℕ → List ℕ → Result WireError Frame
  decode buf key = do
    bail_if (ltb (length buf) (6 + tag)) short_frame
    (header, key_id, offset) ← layout buf
    bail_if (ltb (length buf) (header + tag)) short_frame
    let body_len = length buf - tag
    bail_if (not (bytes_eq (take tag (b.keyed key (take body_len buf))) (drop body_len buf)))
        bad_auth
    bail_if (not (from_be (slice 0 4 buf) == magic)) bad_protocol
    let payload_len = from_be (slice (offset + 28) (offset + 30) buf)
    bail_if (not (header + payload_len + tag == length buf)) bad_length
    ok (
        frame_at (byte_at 4 buf) key_id (byte_at 5 buf) offset
          (slice header (header + payload_len) buf) buf)

  -- b"smart-fec-v3-selector"
  abbrev pub selector_label : List ℕ
  selector_label =
      115 ∷ 109 ∷ 97 ∷ 114 ∷ 116 ∷ 45 ∷ 102 ∷ 101 ∷ 99 ∷ 45 ∷ 118 ∷ 51 ∷ 45 ∷ 115 ∷ 101 ∷ 108 ∷ 101
      ∷ 99 ∷ 116 ∷ 111 ∷ 114 ∷ []

  -- v3_selector_prefix
  unfoldable pub v3_selector_prefix : ℕ → List ℕ
  v3_selector_prefix key_id = take v3_selector_prefix_len (b.hash (selector_label ++ be 8 key_id))

  module _ (a : Aead) where
    -- Frame::encode_wire, with the random bytes that it draws.
    unfoldable pub encode_wire : Frame → List ℕ → List ℕ → List ℕ → Result WireError (List ℕ)
    encode_wire f key nonce random_suffix =
        if f.version == version_v3
        then elim (a.encrypt key nonce (f.kind ∷ fields f)) [
          | none ↦ err encryption_failed
          | some ciphertext ↦
              ok (v3_selector_prefix f.key_id ++ (random_suffix ++ (nonce ++ ciphertext)))
        ]
        else ok (encode f key)

    -- What `decode_v3` does with the decrypted bytes.
    unfoldable pub decode_inner : ℕ → List ℕ → Result WireError Frame
    decode_inner key_id inner = do
      bail_if (ltb (length inner) v3_inner_header) short_v3_payload
      let payload_len = from_be (slice 29 31 inner)
      bail_if (not (v3_inner_header + payload_len == length inner)) bad_length
      ok (frame_at version_v3 key_id (byte_at 0 inner) 1 (drop v3_inner_header inner) inner)

    -- Frame::decode_v3
    unfoldable pub decode_v3 : List ℕ → ℕ → List ℕ → Result WireError Frame
    decode_v3 buf key_id key = do
      bail_if
          (ltb (length buf) (v3_selector + v3_nonce + v3_inner_header + tag)
            || not (bytes_eq (take v3_selector_prefix_len buf) (v3_selector_prefix key_id)))
          invalid_envelope
      elim (a.decrypt key (slice v3_selector (v3_selector + v3_nonce) buf)
          (drop (v3_selector + v3_nonce) buf)) [
            | none ↦ err authentication_failed
            | some inner ↦ decode_inner key_id inner
          ]

    -- `buf.starts_with(&MAGIC.to_be_bytes())`
    abbrev pub starts_with_magic : List ℕ → Bool
    starts_with_magic buf = bytes_eq (take 4 buf) (be 4 magic)

    -- decode_client_frame
    unfoldable pub decode_client_frame : List ℕ → ℕ → List ℕ → Result WireError Frame
    decode_client_frame buf key_id key =
        if starts_with_magic buf then decode buf key else decode_v3 buf key_id key

    -- decode_server_frame: the frame and the device's key. `selectors` maps a prefix to a key id
    -- and its key; the code does not use its two legacy arguments.
    unfoldable pub decode_server_frame :
        List ℕ → List (List ℕ × (ℕ × List ℕ)) → Result WireError (Frame × List ℕ)
    decode_server_frame bytes selectors =
        if starts_with_magic bytes
        then err legacy_removed
        else if ltb (length bytes) v3_selector
        then err short_v3_envelope
        else (elim (get (take v3_selector_prefix_len bytes) selectors) [
          | none ↦ err unknown_selector
          | some (key_id, selected) ↦ do f ← decode_v3 bytes key_id selected; ok (f, selected)
        ])
