-- ===== src/Common/Unary.antt =====
-- A format of integers that is read back, for runs of the modules that take a format.
use Prim.Native.Nat.{ℕ, zero, suc, ◌+◌, ◌/◌, ◌%◌}
use Prim.Native.String.{String, [], ◌∷◌, count}
use mathlib.Core.Path.{◌≡◌, refl, ap, ◌∙◌}
use mathlib.Core.Option.{Option, some}
use text.Mathlib.TextLemmas.{length-cons}
use native.Mathlib.Omega.{arith}
use vcpe.Common.Tests.{◌==◌, if◌then◌else◌, nat_eq}
use vcpe.Common.Int.{ℤ, pos, negsuc}

-- Twice the number of strokes, and one more below zero.
unfoldable pub strokes : ℕ → String
strokes zero = []
strokes (suc n) = "1" ∷ strokes n

unfoldable pub write : ℤ → String
unfolding strokes
write (pos n) = strokes (n + n)
write (negsuc n) = strokes (suc (n + n))

unfoldable pub read : String → Option ℤ
read s = if count s % 2 == 0 then some (pos (count s / 2)) else some (negsuc (count s / 2))

count-strokes : (n : ℕ) → count (strokes n) ≡ n
unfolding strokes
count-strokes zero = refl
count-strokes (suc n) = length-cons _ (strokes n) ∙ ap suc (count-strokes n)

pub read-write : (n : ℤ) → read (write n) ≡ some n
unfolding read write
read-write (pos n) = ground (arith, count-strokes (n + n))
read-write (negsuc n) = ground (arith, count-strokes (suc (n + n)))
