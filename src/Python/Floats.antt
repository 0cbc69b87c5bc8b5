-- ===== src/Python/Floats.antt =====
-- Sums and comparisons of floats: `x + y`, `x < y`. Only NaN does not compare.
use stapel_realtime.Prelude.{ℕ, ◌*◌, Bool, false, not, ◌&&◌}
use stapel_realtime.Prelude.Int.{pos, ◌+ℤ◌, ltb_ℤ}
use stapel_realtime.Python.Values.{Float, finite, inf, units}

unfoldable pub is_below : Float → Float → Bool
is_below (finite a) (finite b) = ltb_ℤ a b
is_below (finite a) (inf minus) = not minus
is_below (inf minus) (finite b) = minus
is_below (inf minus) (inf minus') = minus && not minus'
is_below _ _ = false

unfoldable pub add_seconds : Float → ℕ → Float
unfolding ◌+ℤ◌
add_seconds (finite a) n = finite (a +ℤ pos (n * units))
add_seconds x n = x
