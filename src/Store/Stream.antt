-- ===== src/Store/Stream.antt =====
-- AssembleBlock on every kind of packet: the header, a block, the end of the stream.
use p2p_live_streming_system.Prelude.{
  ℕ, ◌+◌, ◌-◌, ◌^◌, ◌<◌, ◌≡◌, refl, ◌∙◌, List, [], ◌∷◌, ◌++◌, Option, some, none, Bool, true, false,
  if◌then◌else◌, arith, length, length-append, Buf, shift, read,
}
use p2p_live_streming_system.Words.{u16}
use p2p_live_streming_system.Wire.{BlockInfo, copy_bytes_to_block_info, blockinfo_bytes}
use p2p_live_streming_system.Ebml.{footer}
use p2p_live_streming_system.Block.{is_old_block_seq}
use p2p_live_streming_system.Fault.{Result, ok, err, null_pointer, Ensures, Ensures-then, ◌>>=◌}
use p2p_live_streming_system.Store.{
  Cluster, Store, export_webm, update_webm, renew_cluster_for_write, write_at,
}
use p2p_live_streming_system.Store.Assemble.{
  Assembled, running, finished, is_run, assemble_block, assemble_header, assemble_end,
  assemble_data, assemble_new,
}
use p2p_live_streming_system.Store.File.{write_at-end}
use p2p_live_streming_system.Store.Recording.{Recording, Represents, Refines, block_data}
use p2p_live_streming_system.Store.Clock.{HasClock, assemble_new-HasClock}
use p2p_live_streming_system.Store.NewBlock.{assemble_new-Refines, is_new_cluster}

-- The kinds of packets.
abbrev pub IsStart : Buf → Type 0
IsStart p = is_run blockinfo_bytes 0 p ≡ true

abbrev pub IsFinal : Buf → Type 0
IsFinal p = (is_run blockinfo_bytes 0 p ≡ false) × (is_run blockinfo_bytes 0xff p ≡ true)

abbrev pub IsBlock : Buf → Type 0
IsBlock p = (is_run blockinfo_bytes 0 p ≡ false) × (is_run blockinfo_bytes 0xff p ≡ false)

-- Which case of AssembleBlock a packet takes.
abbrev branch : Bool → Bool → Store → Cluster → Cluster → Buf → ℕ → Result Assembled
branch true final s c prev p n = ok (running (assemble_header s c prev p n))
branch false true s c prev p n = ok (finished (assemble_end s c prev n))
branch false false s c prev p n = (assemble_data s c prev p n >>= λ t. ok (running t))

abbrev pub data_length : ℕ → ℕ
data_length bytes = u16 (bytes + 2 ^ 16 - blockinfo_bytes)

pub assemble_block_lem :
    (s : Store) (c prev : Cluster) (p : Buf) (bytes : ℕ)
    → s.clusters ≡ some (c, prev)
    → assemble_block s p bytes
      ≡ branch
          (is_run blockinfo_bytes 0 p)
          (is_run blockinfo_bytes 0xff p)
          s
          c
          prev
          p
          (data_length bytes)
unfolding assemble_block
assemble_block_lem s c prev p bytes h =
    go s.clusters h ∙ split (is_run blockinfo_bytes 0 p) (is_run blockinfo_bytes 0xff p)
  where
    case_of : Bool → Bool → Cluster → Cluster → Result Assembled
    case_of start final d e =
        if start
        then ok (running (assemble_header s d e p (data_length bytes)))
        else if final
        then ok (finished (assemble_end s d e (data_length bytes)))
        else (assemble_data s d e p (data_length bytes) >>= λ t. ok (running t))

    go :
        (o : Option (Cluster × Cluster))
        → o ≡ some (c, prev)
        → (elim o [
          | none ↦ err null_pointer
          | some (d, e) ↦ case_of (is_run blockinfo_bytes 0 p) (is_run blockinfo_bytes 0xff p) d e
        ])
          ≡ case_of (is_run blockinfo_bytes 0 p) (is_run blockinfo_bytes 0xff p) c prev
    go o e = rw e

    split :
        (start final : Bool)
        → case_of start final c prev ≡ branch start final s c prev p (data_length bytes)
    split true final = refl
    split false true = refl
    split false false = refl

-- The header packet, on a file that is open at its end with no block that is still to be counted:
-- its data become the final part of a recording that has no cluster data yet.
pub assemble_block-header :
    (s : Store) (c prev : Cluster) (p : Buf) (bytes : ℕ)
    → s.clusters ≡ some (c, prev)
    → s.position ≡ length s.file
    → s.current_block_num ≡ 0
    → IsStart p
    → (t : Store) × (d : Cluster) × (size : List ℕ) × (assemble_block s p bytes ≡ ok (running t))
      × Represents
          (record {
            closed =
                s.file ++ read (u16 (bytes + 2 ^ 16 - blockinfo_bytes)) (shift p blockinfo_bytes);
            payload = [];
          })
          t
          d
          prev
          size
unfolding assemble_header export_webm update_webm renew_cluster_for_write
assemble_block-header s c prev p bytes h position num start = (
  assemble_header s c prev p (data_length bytes),
  _,
  0xff ∷ 0xff ∷ 0xff ∷ 0xff ∷ 0xff ∷ 0xff ∷ 0xff ∷ [],
  assemble_block_lem s c prev p bytes h ∙ rw start,
  record {
    clusters = refl;
    file = file;
    size_length = refl;
    position = rw file (omega (arith, end, length-append (s.file ++ header) footer));
    pos = end;
    id_bytes = refl;
    data_bytes = rw num refl;
    pending = omega (arith, num);
  },
)
  where
    header : List ℕ
    header = read (data_length bytes) (shift p blockinfo_bytes)

    end : s.position + length header ≡ length (s.file ++ header)
    end = omega (arith, position, length-append s.file header)

    file :
        write_at (write_at s.file s.position header) (s.position + length header) footer
        ≡ (s.file ++ header) ++ footer
    file = rw (end, position, write_at-end s.file header) (write_at-end (s.file ++ header) footer)

-- What a block does to a store that stands for a recording.
abbrev pub Steps : Recording → Bool → BlockInfo → Result (List ℕ) → Result Assembled → Type 0
Steps r new info (ok bytes) (ok (running s)) = Refines r new info (ok bytes) (ok s)
Steps r new info (ok bytes) (ok (finished s)) = ⊥
Steps r new info (ok bytes) (err f) = ⊥
Steps r new info (err e) (ok s) = ⊥
Steps r new info (err e) (err f) = e ≡ f

Steps-running :
    (r : Recording) (new : Bool) (info : BlockInfo) (x : Result (List ℕ)) (m : Result Store)
    → Refines r new info x m
    → Steps r new info x (m >>= λ t. ok (running t))
Steps-running r new info (ok bytes) (ok s) h = h
Steps-running r new info (ok bytes) (err f) h = absurd h
Steps-running r new info (err e) (ok s) h = absurd h
Steps-running r new info (err e) (err f) h = h

-- The store that AssembleBlock leaves.
abbrev pub store_of : Assembled → Store
store_of (running s) = s
store_of (finished s) = s

-- A block packet on a file that stands for a recording whose last cluster has less than 2^56 bytes.
-- A block that is old changes nothing. Any other block is added to the recording, in a new cluster
-- if its cluster is not that of the block before; it becomes the latest block and the block before. If
-- it is the first of a cluster, its time code is replaced: by 0 if it is the first time code at all,
-- which then sets TIMECODE_OFFSET, and else by the time code plus NODE_TIMECODE_OFFSET less
-- TIMECODE_OFFSET, modulo 2^64. Only where the first block of a cluster does not begin with a time code
-- does the program end, and only where the number of the time code reaches beyond the packet buffer
-- does it write past it.
pub assemble_block-Steps :
    (r : Recording) (s : Store) (c prev : Cluster) (size : List ℕ) (p : Buf) (bytes : ℕ)
    → Represents r s c prev size
    → length r.payload < 2 ^ 56
    → IsBlock p
    → (if is_old_block_seq prev.seq s.latest_block_seq (copy_bytes_to_block_info p)
        then assemble_block s p bytes ≡ ok (running s)
        else ((Steps r
              (is_new_cluster s p)
              (copy_bytes_to_block_info p)
              (block_data s p)
              (assemble_block s p bytes))
            × Ensures (λ a. HasClock s p (store_of a)) (assemble_block s p bytes)))
unfolding assemble_data
assemble_block-Steps r s c prev size p bytes h small kind =
    rw (assemble_block_lem s c prev p bytes h.clusters, kind.0, kind.1)
      (split (is_old_block_seq prev.seq s.latest_block_seq (copy_bytes_to_block_info p)))
  where
    new : Result Store
    new = assemble_new s c prev p (data_length bytes)

    split :
        (old : Bool)
        → (if old
            then ((if old then ok s else new) >>= λ t. ok (running t)) ≡ ok (running s)
            else ((Steps r
                  (is_new_cluster s p)
                  (copy_bytes_to_block_info p)
                  (block_data s p)
                  ((if old then ok s else new) >>= λ t. ok (running t)))
                × Ensures
                    (λ a. HasClock s p (store_of a))
                    ((if old then ok s else new) >>= λ t. ok (running t))))
    split true = refl
    split false = (
      Steps-running r (is_new_cluster s p) (copy_bytes_to_block_info p) (block_data s p) new
          (assemble_new-Refines r s c prev size p (data_length bytes) h small),
      Ensures-then (HasClock s p) (λ a. HasClock s p (store_of a)) new _
          (assemble_new-HasClock r s c prev size p (data_length bytes) h small) λ t clock. clock,
    )
