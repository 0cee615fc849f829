-- ===== src/Runtime/Floats.antt =====
-- Python's floats, as far as the percentages of the package use them: nonnegative IEEE doubles, rounded
-- to nearest with ties to even. A double is a number of units of 2 ^ -200. Quotients of the integers of
-- a 64-bit database are at least 2 ^ -64, so every double that occurs is a multiple of the unit.
use mnema.Prelude.{ℕ, zero, suc, ◌+◌, ◌*◌, ◌/◌, ◌%◌, ◌^◌, ltb, if◌then◌else◌, ◌≡◌, refl, true}

abbrev pub Float : Type 0
Float = ℕ

-- How often `q` is halved until it has at most 53 bits. The fuel of 400 is enough below 2 ^ 453.
unfoldable pub halvings : ℕ → ℕ → ℕ
halvings zero q = 0
halvings (suc fuel) q = let more = halvings fuel (q / 2) in if ltb q (2 ^ 53) then 0 else suc more

abbrev pub half_even : ℕ → ℕ → ℕ → ℕ
half_even m r step = if ltb (2 * r) step then m else if ltb step (2 * r) then m + 1 else m + m % 2

-- The double nearest to `n / d` units.
unfoldable pub nearest : ℕ → ℕ → Float
unfolding halvings
nearest n d =
    let scale = 2 ^ halvings 400 (n / d) in
    half_even (n / (d * scale)) (n % (d * scale)) (d * scale) * scale

abbrev pub unit : ℕ
unit = 2 ^ 200

-- `float(n)`, the quotient of two integers, `x * y`, `x / n`, and `int(x)`
unfoldable pub float : ℕ → Float
unfolding nearest
float n = nearest (n * unit) 1

unfoldable pub quotient : ℕ → ℕ → Float
unfolding nearest
quotient n d = nearest (n * unit) d

unfoldable pub times : Float → Float → Float
unfolding nearest
times x y = nearest (x * y) unit

unfoldable pub over : Float → ℕ → Float
unfolding nearest
over x n = nearest x n

-- The float of a number of ten-thousandths.
unfoldable pub of_percent : ℕ → Float
unfolding quotient
of_percent p = quotient p 10000

abbrev pub truncated : Float → ℕ
truncated x = x / unit

abbrev seven_percent : Float
unfolding quotient times float nearest halvings
seven_percent = times (quotient 7 100) (float 100)

-- 7 / 100 * 100 is the double above 7.
seven_of_a_hundred : ltb (float 7) seven_percent ≡ true
unfolding seven_percent quotient times float nearest halvings
seven_of_a_hundred = refl
