-- ===== src/Prelude/Bits.antt =====
-- Masks, shifts and exclusive or on machine words, as arithmetic.
pub mod Digits
mod Shifts
mod Xor
mod Bytes
mod Powers
pub use Shifts.{bit_and_below, bit_and_at, bit_or_shifted}
pub use Xor.{bit_xor_twice, bit_xor-lt}
pub use Bytes.{fin_bit, low_nibble, low_seven, with_top_bit, low_byte, low_six, same_to-eq}
unfoldable pub use Bytes.{same_to}
pub use Powers.{power_of_two}
