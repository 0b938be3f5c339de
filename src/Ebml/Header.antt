-- ===== src/Ebml/Header.antt =====
-- The cluster headers that a peer writes, and GetChank on them (src/common/webm_parser.c).
use p2p_live_streming_system.Prelude.{
  Buf, ℕ, ◌+◌, ◌-◌, ◌^◌, ◌<◌, ◌≡◌, refl, List, ◌∷◌, ◌++◌, arith, at,
}
use p2p_live_streming_system.Ebml.{
  msb_scan, carry, get_ebml_id, get_data_bytes, get_chank, update_data_buf, footer, cluster_id,
}

-- The header of a cluster of `data_bytes` bytes: the id, the marker of an eight-byte size, the size.
abbrev pub cluster_header : ℕ → List ℕ
cluster_header data_bytes = 0x1f ∷ 0x43 ∷ 0xb6 ∷ 0x75 ∷ 0x01 ∷ update_data_buf 7 data_bytes

-- A cluster size that UpdateClusterDataBytesToWebM wrote into the header is the size that GetChank
-- reads back, for every size below the reserved value 2^56 - 1, and whatever follows the header.
pub get_chank-cluster_header :
    (data_bytes : ℕ) (rest : List ℕ)
    → data_bytes < 2 ^ 56 - 1
    → get_chank (at (cluster_header data_bytes ++ rest)) ≡ record {
      id = cluster_id;
      id_bytes = 4;
      data_header_position = 12;
      data_bytes = data_bytes;
      chank_bytes = 12 + data_bytes;
    }
unfolding get_chank get_ebml_id get_data_bytes carry msb_scan update_data_buf
get_chank-cluster_header d rest h = ground arith

-- FOOTER, the header of a cluster whose size is not known yet, is read as a cluster of no data.
pub get_chank-footer :
    (rest : List ℕ)
    → get_chank (at (footer ++ rest)) ≡ record {
      id = cluster_id;
      id_bytes = 4;
      data_header_position = 12;
      data_bytes = 0;
      chank_bytes = 12;
    }
unfolding get_chank get_ebml_id get_data_bytes carry msb_scan
get_chank-footer rest = refl

-- The same on a buffer that holds the header and anything behind it.
pub get_chank-header :
    (d : ℕ) (q : Buf)
    → d < 2 ^ 56 - 1
    → ((i : ℕ) → i < 12 → q i ≡ at (cluster_header d) i)
    → get_chank q ≡ record {
      id = cluster_id;
      id_bytes = 4;
      data_header_position = 12;
      data_bytes = d;
      chank_bytes = 12 + d;
    }
unfolding get_chank get_ebml_id get_data_bytes carry msb_scan update_data_buf
get_chank-header d q small h =
    rw
      (
        h 0 (omega arith),
        h 1 (omega arith),
        h 2 (omega arith),
        h 3 (omega arith),
        h 4 (omega arith),
        h 5 (omega arith),
        h 6 (omega arith),
        h 7 (omega arith),
        h 8 (omega arith),
        h 9 (omega arith),
        h 10 (omega arith),
        h 11 (omega arith),
      )
      (ground arith)
