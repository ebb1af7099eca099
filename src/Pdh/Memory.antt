-- ===== src/Pdh/Memory.antt =====
-- Little-endian words in memory.
use win_perf_counters.Prelude.{
  ℕ, zero, suc, ◌+◌, ◌-◌, ◌*◌, ◌/◌, ◌%◌, ◌^◌, ◌<◌, ◌≡◌, List, [], ◌∷◌, ◌++◌, ltb, if◌then◌else◌,
  drop, arith,
}
use win_perf_counters.Int.{ℤ, pos, negsuc}

abbrev pub Bytes : Type 0
Bytes = List ℕ

-- The word of `n` bytes at the start of the memory.
abbrev pub read : ℕ → Bytes → ℕ
read zero bs = 0
read (suc n) [] = 0
read (suc n) (b ∷ bs) = b + 256 * read n bs

abbrev pub read_at : ℕ → ℕ → Bytes → ℕ
read_at n at bs = read n (drop at bs)

-- The `n` bytes of a word.
abbrev pub bytes_of : ℕ → ℕ → Bytes
bytes_of zero v = []
bytes_of (suc n) v = v % 256 ∷ bytes_of n (v / 256)

-- A word of `w` bits as a signed number.
abbrev pub signed : ℕ → ℕ → ℤ
signed w v = if ltb v (2 ^ (w - 1)) then pos v else negsuc (2 ^ w - 1 - v)

-- A word that fits is read back, whatever follows it.
pub read4-bytes_of : (v : ℕ) (bs : Bytes) → v < 2 ^ 32 → read 4 (bytes_of 4 v ++ bs) ≡ v
read4-bytes_of v bs h = omega arith

pub read8-bytes_of : (v : ℕ) (bs : Bytes) → v < 2 ^ 64 → read 8 (bytes_of 8 v ++ bs) ≡ v
read8-bytes_of v bs h = omega arith
