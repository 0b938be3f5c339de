-- ===== src/Words.antt =====
-- Machine words of the C sources (src/common/wrapper.h: u8, u16, u32, u64) on a little-endian host.
-- A word is a number; `bytes_u16` and `bytes_u32` are its bytes in memory, `load_u16` and
-- `load_u32` read it back. `htons` and `htonl` (with `ntohs` and `ntohl`, which are the same
-- functions) exchange the bytes of a word.
use p2p_live_streming_system.Prelude.{
  ℕ, ◌+◌, ◌*◌, ◌/◌, ◌%◌, ◌^◌, ◌<◌, ◌≡◌, List, [], ◌∷◌, arith, Buf,
}

abbrev pub u8 : ℕ → ℕ
u8 n = n % 2 ^ 8

abbrev pub u16 : ℕ → ℕ
u16 n = n % 2 ^ 16

abbrev pub u32 : ℕ → ℕ
u32 n = n % 2 ^ 32

abbrev pub u64 : ℕ → ℕ
u64 n = n % 2 ^ 64

abbrev pub bytes_u16 : ℕ → List ℕ
bytes_u16 v = (v % 256) ∷ (v / 256 % 256) ∷ []

abbrev pub bytes_u32 : ℕ → List ℕ
bytes_u32 v = (v % 256) ∷ (v / 256 % 256) ∷ (v / 65536 % 256) ∷ (v / 16777216 % 256) ∷ []

abbrev pub load_u16 : Buf → ℕ
load_u16 p = p 0 + p 1 * 256

abbrev pub load_u32 : Buf → ℕ
load_u32 p = p 0 + p 1 * 256 + p 2 * 65536 + p 3 * 16777216

unfoldable pub htons : ℕ → ℕ
htons v = v % 256 * 256 + v / 256 % 256

unfoldable pub htonl : ℕ → ℕ
htonl v = v % 256 * 16777216 + v / 256 % 256 * 65536 + v / 65536 % 256 * 256 + v / 16777216 % 256

pub htons-htons : (v : ℕ) → v < 2 ^ 16 → htons (htons v) ≡ v
unfolding htons
htons-htons v h = omega arith

pub htonl-htonl : (v : ℕ) → v < 2 ^ 32 → htonl (htonl v) ≡ v
unfolding htonl
htonl-htonl v h = omega arith

pub htons_lt : (v : ℕ) → htons v < 2 ^ 16
unfolding htons
htons_lt v = omega arith

pub htonl_lt : (v : ℕ) → htonl v < 2 ^ 32
unfolding htonl
htonl_lt v = omega arith

pub load-bytes_u16 : (v : ℕ) → v < 2 ^ 16 → v % 256 + v / 256 % 256 * 256 ≡ v
load-bytes_u16 v h = omega arith

pub load-bytes_u32 :
    (v : ℕ)
    → v < 2 ^ 32
    → v % 256 + v / 256 % 256 * 256 + v / 65536 % 256 * 65536 + v / 16777216 % 256 * 16777216 ≡ v
load-bytes_u32 v h = omega arith
