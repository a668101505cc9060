-- ===== src/Prelude/Angles.antt =====
-- Latitudes and longitudes, which the source has as signed decimal degrees.
use Prim.Native.Nat.{ℕ}

-- An angle to the north or the east, or to the south or the west, in ten-millionths of a degree.
pub data Angle : Type 0 where
  north_or_east south_or_west : ℕ → Angle
