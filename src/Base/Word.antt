-- ===== src/Base/Word.antt =====
-- The wrap-around of uint64 and int64.
use Prim.Native.Nat.{ℕ, ◌+◌, ◌-◌, ◌%◌, ◌^◌}

abbrev pub u64_mod : ℕ
u64_mod = 2 ^ 64

-- x++ on a uint64.
abbrev pub inc64 : ℕ → ℕ
inc64 x = (x + 1) % u64_mod

-- x += n on a uint64.
abbrev pub add64 : ℕ → ℕ → ℕ
add64 x n = (x + n) % u64_mod

-- x-- on an int or uint64.
abbrev pub dec64 : ℕ → ℕ
dec64 x = (x + (u64_mod - 1)) % u64_mod
