-- ===== src/Ebml.antt =====
-- The EBML elements of a WebM file (src/common/webm_parser.c: GetEBMLID, GetDataBytes, GetChank).
-- A pointer to bytes is the function that reads them, so a read is never out of bounds here.
pub mod Length
pub mod Header
pub mod Reach
mod Tests
use p2p_live_streming_system.Prelude.{
  ℕ, zero, suc, ◌+◌, ◌-◌, ◌*◌, ◌/◌, ◌%◌, ◌^◌, List, [], ◌∷◌, ◌==◌, if◌then◌else◌, bit_and, Buf,
  shift,
}
use p2p_live_streming_system.Words.{u16, u32, u64}

abbrev pub ebml_id : ℕ
ebml_id = 0x1a45dfa3

abbrev pub void_id : ℕ
void_id = 0xec

abbrev pub segment_id : ℕ
segment_id = 0x18538067

abbrev pub seekhead_id : ℕ
seekhead_id = 0x114d9b74

abbrev pub tracks_id : ℕ
tracks_id = 0x1654ae6b

abbrev pub info_id : ℕ
info_id = 0x1549a966

abbrev pub cluster_id : ℕ
cluster_id = 0x1f43b675

abbrev pub simpleblock_id : ℕ
simpleblock_id = 0xa3

abbrev pub timecode_id : ℕ
timecode_id = 0xe7

abbrev pub cue_id : ℕ
cue_id = 0x1c53bb6b

abbrev pub cluster_id_bytes : ℕ
cluster_id_bytes = 4

abbrev pub cluster_header_bytes : ℕ
cluster_header_bytes = 12

pub record Chank : Type 0 where
  pub id : ℕ
  pub id_bytes : ℕ
  pub data_header_position : ℕ
  pub data_bytes : ℕ
  pub chank_bytes : ℕ

-- `for( i = 7 ; i >= 0 ; i-- )` to the highest bit that is set; the argument is i + 1 and the value
-- is 8 - i, which is 9 after a loop that found no bit.
unfoldable pub msb_scan : ℕ → ℕ → ℕ
msb_scan zero b = 9
msb_scan (suc i) b = let rest = msb_scan i b in if b / 2 ^ i % 2 == 1 then 8 - i else rest

abbrev pub size_bytes : ℕ → ℕ
size_bytes b = msb_scan 8 b

-- `v <<= 8; v += *p` for `n` bytes, in a u64.
unfoldable pub carry : ℕ → Buf → ℕ → ℕ
carry zero p v = v
carry (suc n) p v = carry n (shift p 1) (u64 (u64 (v * 256) + p 0))

-- GetEBMLID: the id and its size.
unfoldable pub get_ebml_id : Buf → ℕ × ℕ
get_ebml_id buf = let n = size_bytes (buf 0) in (u32 (carry (n - 1) (shift buf 1) (buf 0)), n)

-- GetDataBytes: the number and its size.
unfoldable pub get_data_bytes : Buf → ℕ × ℕ
get_data_bytes buf =
    let n = size_bytes (buf 0) in (carry (n - 1) (shift buf 1) (bit_and (buf 0) (0xff / 2 ^ n)), n)

-- GetChank
unfoldable pub get_chank : Buf → Chank
get_chank buf =
    let (id, id_size) = get_ebml_id buf in
    let (data_bytes, size) = get_data_bytes (shift buf id_size) in
    let header = id_size + size in
    let position = u64 (header + data_bytes) in
    if data_bytes == 0xff_ffff_ffff_ffff
    then record {
      id = id;
      id_bytes = id_size;
      data_header_position = header;
      data_bytes = 0;
      chank_bytes = header;
    }
    else record {
      id = id;
      id_bytes = id_size;
      data_header_position = u16 (position + 2 ^ 64 - data_bytes);
      data_bytes = data_bytes;
      chank_bytes = position;
    }

-- FOOTER: the header of a cluster of unknown size.
abbrev pub footer : List ℕ
footer = 0x1f ∷ 0x43 ∷ 0xb6 ∷ 0x75 ∷ 0x01 ∷ 0xff ∷ 0xff ∷ 0xff ∷ 0xff ∷ 0xff ∷ 0xff ∷ 0xff ∷ []

-- The loop of UpdateClusterDataBytesToWebM over `count_shift`, with `n` rounds to go: the low `n`
-- bytes of a size, highest first.
unfoldable pub update_data_buf : ℕ → ℕ → List ℕ
update_data_buf zero data_bytes = []
update_data_buf (suc n) data_bytes = (data_bytes / 2 ^ (8 * n) % 256) ∷ update_data_buf n data_bytes
