-- ===== src/Store/Blocks.antt =====
-- AssembleBlock up to the copy of the info (src/common/webm_parser.c).
use p2p_live_streming_system.Prelude.{
  ℕ, zero, suc, ◌^◌, ◌<◌, ◌≡◌, refl, sym, ap, ◌∙◌, List, Bool, true, false, Bool-cases, inl, inr,
  ◌==◌, ==_iff, if◌then◌else◌, arith, length,
}
use p2p_live_streming_system.Wire.{BlockInfo}
use p2p_live_streming_system.Store.{
  Cluster, Store, export_webm, update_webm, update_cluster_to_webm,
  update_cluster_data_bytes_to_webm, seek_abs_webm, grow, block_bytes,
}
use p2p_live_streming_system.Store.Assemble.{flush_block, first_cluster, take_info}
use p2p_live_streming_system.Store.Recording.{Recording, Represents}
use p2p_live_streming_system.Store.Refine.{update_cluster-Represents}

-- The members that decide about the time code and the new cluster.
pub record SameTimes (s t : Store) : Type 0 where
  pub is_get : t.is_get_timecode_offset ≡ s.is_get_timecode_offset
  pub node_offset : t.node_timecode_offset ≡ s.node_timecode_offset
  pub offset : t.timecode_offset ≡ s.timecode_offset
  pub before : t.current_block.prev ≡ s.current_block.prev

-- A store that is ready for the next block.
pub record Ready (r : Recording) (s t : Store) (prev : Cluster) : Type 0 where
  pub cluster : Cluster
  pub size : List ℕ
  pub represents : Represents r t cluster prev size
  pub counted : t.current_block_num ≡ 0
  pub times : SameTimes s t

flush_block-Ready :
    (r : Recording) (s : Store) (c prev : Cluster) (size : List ℕ)
    → Represents r s c prev size
    → length r.payload < 2 ^ 56
    → Ready r s (flush_block s c prev) prev
unfolding flush_block update_webm update_cluster_to_webm update_cluster_data_bytes_to_webm
    seek_abs_webm export_webm
flush_block-Ready r s c prev size h small = elim (Bool-cases (s.current_block_num == 1)) [
  | inl e ↦
      let one : s.current_block_num ≡ 1 = (==_iff _ _).0 e in
      rw e (record {
        cluster = grow c (block_bytes s s.current_block_num);
        size = _;
        represents =
            update_cluster-Represents r s c prev size h small _ (rw one) (rw one) refl refl;
        counted = refl;
        times = record { is_get = refl; node_offset = refl; offset = refl; before = refl };
      })
  | inr e ↦ rw e (record {
    cluster = c;
    size = size;
    represents = h;
    counted = ground (arith, h.pending);
    times = record { is_get = refl; node_offset = refl; offset = refl; before = refl };
  })
]

-- A conditional between two states.
either : (P : Store → Type 0) (b : Bool) (s t : Store) → P s → P t → P (if b then s else t)
either P true s t p q = p
either P false s t p q = q

-- What a recording says of a store depends on these members.
pub record SameFile (s t : Store) : Type 0 where
  pub file : t.file ≡ s.file
  pub position : t.position ≡ s.position
  pub clusters : t.clusters ≡ s.clusters
  pub number : t.current_block_num ≡ s.current_block_num
  pub counted : t.current_blockinfo.bytes ≡ s.current_blockinfo.bytes

block_bytes-same : (s t : Store) (n : ℕ) → SameFile s t → block_bytes t n ≡ block_bytes s n
block_bytes-same s t zero e = refl
block_bytes-same s t (suc n) e = e.counted

pub Represents-same :
    (r : Recording) (s t : Store) (c prev : Cluster) (size : List ℕ)
    → SameFile s t
    → Represents r s c prev size
    → Represents r t c prev size
Represents-same r s t c prev size e h = record {
  clusters = e.clusters ∙ h.clusters;
  file = e.file ∙ h.file;
  size_length = h.size_length;
  position = e.position ∙ h.position ∙ sym (ap length e.file);
  pos = h.pos;
  id_bytes = h.id_bytes;
  data_bytes = rw (e.number, block_bytes-same s t s.current_block_num e) h.data_bytes;
  pending = rw (e.number) h.pending;
}

-- The block before is counted, and CURRENT_BLOCK has the new info.
pub prepare-Ready :
    (r : Recording) (s : Store) (c prev : Cluster) (size : List ℕ) (info : BlockInfo)
    → Represents r s c prev size
    → length r.payload < 2 ^ 56
    → Ready r s (take_info (flush_block (first_cluster s info) c prev) info) prev
prepare-Ready r s c prev size info h small =
    either (λ t. Ready r s (take_info (flush_block t c prev) info) prev) s.is_first_cluster first s
      (ready first (record { is_get = refl; node_offset = refl; offset = refl; before = refl })
        (flush_block-Ready r first c prev size
          (Represents-same r s first c prev size
            (record {
              file = refl;
              position = refl;
              clusters = refl;
              number = refl;
              counted = refl;
            })
            h)
          small))
      (ready s (record { is_get = refl; node_offset = refl; offset = refl; before = refl })
        (flush_block-Ready r s c prev size h small))
  where
    first : Store
    first = record s { first_cluster_seq = info.cluster_seq; is_first_cluster = false }

    ready :
        (t : Store) {u : Store}
        → SameTimes s t
        → Ready r t u prev
        → Ready r s (take_info u info) prev
    ready t {u} same g = record {
      cluster = g.cluster;
      size = g.size;
      represents =
          Represents-same r u (take_info u info) g.cluster prev g.size
            (record {
              file = refl;
              position = refl;
              clusters = refl;
              number = refl;
              counted = refl;
            })
            g.represents;
      counted = g.counted;
      times = record {
        is_get = g.times.is_get ∙ same.is_get;
        node_offset = g.times.node_offset ∙ same.node_offset;
        offset = g.times.offset ∙ same.offset;
        before = g.times.before ∙ same.before;
      };
    }
