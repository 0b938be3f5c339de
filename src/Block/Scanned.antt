-- ===== src/Block/Scanned.antt =====
-- The bytes that a scan for elements takes (GetChankByBytes in src/common/webm_parser.c).
use p2p_live_streming_system.Prelude.{
  ℕ, zero, suc, ◌+◌, ◌≤◌, ◌≡◌, refl, arith, Option, none, some, Bool, true, false, Bool-cases, inl,
  inr, ltb, ◌==◌, if◌then◌else◌, Buf, shift,
}
use mathlib.Core.Path.{fun_ext}
use native.Mathlib.Nat.{zero-add}
use p2p_live_streming_system.Words.{u16, u64}
use p2p_live_streming_system.Ebml.{
  Chank, get_chank, cluster_id, cue_id, timecode_id, simpleblock_id,
}
use p2p_live_streming_system.Block.{
  Block, chank_loop, get_chank_by_bytes, cluster_end, only_timecode,
}

-- What a scan of `req` bytes may return: no more than was asked for, and nothing with the status 0.
abbrev Bounded : ℕ → Option (ℕ × ℕ) → Type 0
Bounded req none = Unit {0}
Bounded req (some (status, total)) = (total ≤ req) × (status ≡ 0 → total ≡ 0)

-- The tests of one round.
round-Bounded :
    (req status total : ℕ) (ends cue big timecode simpleblock : Bool) (x y : Option (ℕ × ℕ))
    → Bounded req (some (status, total))
    → (big ≡ false → Bounded req x)
    → (big ≡ false → Bounded req y)
    → Bounded req (
        if ends
        then some (cluster_end, total)
        else if cue
        then some (cluster_end, total)
        else if big
        then some (status, total)
        else if timecode
        then x
        else if simpleblock
        then y
        else some (status, total))
round-Bounded req status total true c b t s x y h f g = (h.0, λ e. absurd (omega arith))
round-Bounded req status total false true b t s x y h f g = (h.0, λ e. absurd (omega arith))
round-Bounded req status total false false true t s x y h f g = h
round-Bounded req status total false false false true s x y h f g = f refl
round-Bounded req status total false false false false true x y h f g = g refl
round-Bounded req status total false false false false false x y h f g = h

chank_loop-Bounded :
    (fuel : ℕ) (buf : Buf) (req position total status : ℕ)
    → Bounded req (some (status, total))
    → Bounded req (chank_loop fuel buf req position total status)
unfolding chank_loop
chank_loop-Bounded zero buf req position total status h = tt
chank_loop-Bounded (suc fuel) buf req position total status h =
    round-Bounded req status total (c_id == cluster_id) (c_id == cue_id) (ltb req after)
      (c_id == timecode_id) (c_id == simpleblock_id) _ _ h
      (λ e.
        chank_loop-Bounded fuel buf req _ after only_timecode
          (ground arith, λ z. absurd (omega arith)))
      (λ e. chank_loop-Bounded fuel buf req _ after 1 (ground arith, λ z. absurd (omega arith)))
  where
    c_id : ℕ
    c_id = (get_chank (shift buf position)).id

    after : ℕ
    after = u64 (total + (get_chank (shift buf position)).chank_bytes)

-- A scan that took something found a first element that fits.
abbrev Started : ℕ → Buf → Option (ℕ × ℕ) → Type 0
Started req buf none = Unit {0}
Started req buf (some (status, total)) =
    status ≡ only_timecode → u64 ((get_chank buf).chank_bytes) ≤ req

round-Started :
    (req first : ℕ) (ends cue timecode simpleblock : Bool) (x y : Option (ℕ × ℕ)) (buf : Buf)
    → u64 ((get_chank buf).chank_bytes) ≡ first
    → Started req buf (
        if ends
        then some (cluster_end, 0)
        else if cue
        then some (cluster_end, 0)
        else if ltb req first
        then some (0, 0)
        else if timecode
        then x
        else if simpleblock
        then y
        else some (0, 0))
round-Started req first true c t s x y buf e = λ k. absurd (omega arith)
round-Started req first false true t s x y buf e = λ k. absurd (omega arith)
round-Started req first false false t s x y buf e = elim (Bool-cases (ltb req first)) [
  | inl big ↦ rw big (λ k. absurd (omega arith))
  | inr fits ↦ rw fits (started (rw e (ground arith)) t s x y)
]
  where
    started :
        u64 ((get_chank buf).chank_bytes) ≤ req
        → (t s : Bool) (x y : Option (ℕ × ℕ))
        → Started req buf (if t then x else if s then y else some (0, 0))
    started h true s none y = tt
    started h true s (some r) y = λ k. h
    started h false true x none = tt
    started h false true x (some r) = λ k. h
    started h false false x y = λ k. h

chank_loop-Started :
    (fuel : ℕ) (buf : Buf) (req : ℕ) → Started req buf (chank_loop (suc fuel) buf req 0 0 0)
unfolding chank_loop
chank_loop-Started fuel buf req =
    round-Started req (u64 (0 + first.chank_bytes)) (first.id == cluster_id) (first.id == cue_id)
      (first.id == timecode_id) (first.id == simpleblock_id) _ _ buf same
  where
    first : Chank
    first = get_chank (shift buf 0)

    start : shift buf 0 ≡ buf
    start = fun_ext (λ i. rw zero-add)

    same : u64 ((get_chank buf).chank_bytes) ≡ u64 (0 + first.chank_bytes)
    same = rw start (omega arith)

-- What GetChankByBytes leaves.
pub record Scanned (b : Block) (buf : Buf) (req ret : ℕ) (c : Block) : Type 0 where
  pub total : ℕ
  pub block : c ≡ record b { info = record b.info { bytes = u16 (b.info.bytes + total) } }
  pub fits : total ≤ req
  pub empty : ret ≡ 0 → total ≡ 0
  pub started : ret ≡ only_timecode → u64 ((get_chank buf).chank_bytes) ≤ req

abbrev pub IsScanned : Block → Buf → ℕ → Option (ℕ × Block) → Type 0
IsScanned b buf req none = Unit {0}
IsScanned b buf req (some (ret, c)) = Scanned b buf req ret c

pub scan-IsScanned :
    (b : Block) (buf : Buf) (req : ℕ) → IsScanned b buf req (get_chank_by_bytes b buf req)
unfolding get_chank_by_bytes
scan-IsScanned b buf req =
    go (chank_loop (suc req) buf req 0 0 0)
      (chank_loop-Bounded (suc req) buf req 0 0 0 (omega arith, λ e. refl))
      (chank_loop-Started req buf req)
  where
    go :
        (o : Option (ℕ × ℕ))
        → Bounded req o
        → Started req buf o
        → IsScanned b buf req (elim o [
          | none ↦ none
          | some (status, total) ↦
              some
                (status, record b { info = record b.info { bytes = u16 (b.info.bytes + total) } })
        ])
    go none h k = tt
    go (some (status, total)) h k = record {
      total = total;
      block = refl;
      fits = h.0;
      empty = h.1;
      started = k;
    }
