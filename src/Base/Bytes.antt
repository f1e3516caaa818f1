-- ===== src/Base/Bytes.antt =====
-- Little-endian words as lists of bytes: `to_le_bytes` and `from_le_bytes` of the unsigned types.
use Prim.Native.Nat.{ℕ, zero, suc, ◌+◌, ◌*◌, ◌/◌, ◌%◌, ◌<◌}
use mathlib.Core.Path.{◌≡◌, refl}
use mathlib.Core.List.{List, [], ◌∷◌}
use native.Mathlib.Omega.{arith}
use rarm_db.Base.Lists.{length}

-- The first argument is the number of bytes.
unfoldable pub to_le_bytes : ℕ → ℕ → List ℕ
to_le_bytes zero v = []
to_le_bytes (suc k) v = (v % 256) ∷ to_le_bytes k (v / 256)

unfoldable pub from_le_bytes : List ℕ → ℕ
from_le_bytes [] = 0
from_le_bytes (x ∷ xs) = x + 256 * from_le_bytes xs

pub length-to_le_bytes : (k v : ℕ) → length (to_le_bytes k v) ≡ k
unfolding to_le_bytes
length-to_le_bytes zero v = refl
length-to_le_bytes (suc k) v = omega (arith, length-to_le_bytes k (v / 256))

pub from_le_bytes-to_le_bytes_2 : (v : ℕ) → v < 65536 → from_le_bytes (to_le_bytes 2 v) ≡ v
unfolding to_le_bytes from_le_bytes
from_le_bytes-to_le_bytes_2 v h = omega arith

pub from_le_bytes-to_le_bytes_4 : (v : ℕ) → v < 4294967296 → from_le_bytes (to_le_bytes 4 v) ≡ v
unfolding to_le_bytes from_le_bytes
from_le_bytes-to_le_bytes_4 v h = omega arith

pub from_le_bytes-to_le_bytes_8 :
    (v : ℕ) → v < 18446744073709551616 → from_le_bytes (to_le_bytes 8 v) ≡ v
unfolding to_le_bytes from_le_bytes
from_le_bytes-to_le_bytes_8 v h = omega arith
