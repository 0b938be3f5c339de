-- ===== src/Checksum.antt =====
-- The Internet checksum (src/common/p2p.c: CalSumEach16bit, CalIPChecksum, CalL4Checksum). A buffer is
-- the list of its bytes; u16 words are read little-endian, as the host reads them.
pub mod Verify
use p2p_live_streming_system.Prelude.{ℕ, ◌+◌, ◌-◌, ◌*◌, ◌/◌, ◌%◌, ◌^◌, List, [], ◌∷◌}
use p2p_live_streming_system.Words.{u16, u32}

-- CalSumEach16bit with `sum` so far: a u32. A last odd byte is added alone.
unfoldable pub cal_sum_loop : ℕ → List ℕ → ℕ
cal_sum_loop sum [] = sum
cal_sum_loop sum (x ∷ []) = u32 (sum + x)
cal_sum_loop sum (x ∷ y ∷ rest) = cal_sum_loop (u32 (sum + (x + y * 256))) rest

unfoldable pub cal_sum_each_16bit : List ℕ → ℕ
cal_sum_each_16bit buf = cal_sum_loop 0 buf

-- `( sum >> 16 ) + ( sum & 0xffff )`, in a u32.
abbrev pub fold_carry : ℕ → ℕ
fold_carry sum = u32 (sum / 65536 + sum % 65536)

-- `~( sum & 0xffff )` in a u16.
abbrev pub flip_bits : ℕ → ℕ
flip_bits sum = 65535 - sum % 65536

unfoldable pub cal_ip_checksum : List ℕ → ℕ
cal_ip_checksum buf = flip_bits (fold_carry (fold_carry (cal_sum_each_16bit buf)))

unfoldable pub cal_l4_checksum : List ℕ → List ℕ → ℕ
cal_l4_checksum buf pseudo_iphdr =
    flip_bits
      (fold_carry (fold_carry (u32 (cal_sum_each_16bit pseudo_iphdr + cal_sum_each_16bit buf))))
