-- ===== src/Model/Doubles.antt =====
-- tools/model/challenge-model.mjs: the sums of its amounts, which are numbers of JavaScript. A sum or a
-- difference of integers is rounded to 53 binary digits, to the nearest, and to the even one between two.
use challenge_escrow_protoco.Prelude.{
  ℕ, zero, suc, ◌+◌, ◌-◌, ◌*◌, ◌/◌, ◌%◌, ◌^◌, ◌≤◌, ◌==◌, ◌≡◌, ◌&&◌, ◌||◌, true, false, ltb, leb,
  if◌then◌else◌, arith,
}

abbrev pub max_safe_integer : ℕ
max_safe_integer = 2 ^ 53 - 1

-- To the nearest multiple of a unit, and to the even one between two.
unfoldable pub nearest : ℕ → ℕ → ℕ
nearest n unit =
    let quotient = n / unit in
    let rest = n % unit in
    if ltb (rest * 2) unit || (rest * 2 == unit && quotient % 2 == 0)
    then quotient * unit
    else (quotient + 1) * unit

-- From an exponent on, the first at which 53 digits hold the number. There are 972 exponents; what is
-- above all of them, which is infinity, would need more challenges than a program can hold.
unfoldable pub round_from : ℕ → ℕ → ℕ → ℕ
unfolding nearest
round_from zero e n = n
round_from (suc more) e n = elim (ltb n (2 ^ (53 + e))) [
  | true ↦ nearest n (2 ^ e)
  | false ↦ round_from more (e + 1) n
]

unfoldable pub double : ℕ → ℕ
unfolding round_from
double n = if leb n max_safe_integer then n else round_from 972 0 n

-- A safe integer is not rounded.
pub double-exact : (n : ℕ) → n ≤ max_safe_integer → double n ≡ n
unfolding double
double-exact n safe = ground arith
