-- ===== src/Prelude/Bytes.antt =====
-- Byte strings as lists of numbers, fixed-size arrays as numbers. The array `[u8; n]` is the
-- number below `256 ^ n` whose little-endian bytes it holds, so `[0u8; 32]` is 0, and
-- `u32::from_le_bytes(a[0..4])` is `a % 2 ^ 32`.
use Prim.Native.Nat.{ℕ, zero, suc, ◌+◌, ◌*◌, ◌/◌, ◌%◌}
use Prim.Native.Char.{code}
use Prim.Native.String.{String}
use mathlib.Core.List.{List, [], ◌∷◌}

-- `to_le_bytes` of a number at a width in bytes.
unfoldable pub to_le_bytes : ℕ → ℕ → List ℕ
to_le_bytes zero x = []
to_le_bytes (suc n) x = (x % 256) ∷ to_le_bytes n (x / 256)

-- `from_le_bytes`.
unfoldable pub from_le_bytes : List ℕ → ℕ
from_le_bytes [] = 0
from_le_bytes (b ∷ bs) = b + 256 * from_le_bytes bs

-- The bytes of an ASCII literal `b"..."`.
abbrev pub ascii : String → List ℕ
ascii String.[] = []
ascii (String.◌∷◌ c s) = code c ∷ ascii s
