-- ===== src/Prelude/Words.antt =====
-- Words of fixed width, as numbers with the wrap-around written out.
use Prim.Native.Nat.{ℕ, ◌+◌, ◌-◌, ◌%◌, ◌^◌, ◌<◌}

-- The number of values of a `size_t` (and of a `uint64_t`) on the 64-bit targets of the build.
abbrev pub size_mod : ℕ
size_mod = 2 ^ 64

-- `SIZE_MAX`, which is also `(size_t)-1`
abbrev pub size_max : ℕ
size_max = 0xffff_ffff_ffff_ffff

abbrev pub add_size : ℕ → ℕ → ℕ
add_size a b = (a + b) % size_mod

abbrev pub IsByte : ℕ → Type 0
IsByte b = b < 256

abbrev pub sub_size : ℕ → ℕ → ℕ
sub_size a b = (a + size_mod - b) % size_mod
