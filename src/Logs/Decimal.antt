-- ===== src/Logs/Decimal.antt =====
-- `to_string` of an unsigned integer: its decimal digits.
use hos_tla.Base.{
  ℕ, zero, suc, ◌+◌, ◌-◌, ◌*◌, ◌/◌, ◌%◌, ◌≤◌, ◌<◌, ◌≡◌, refl, Option, none, some, [], ◌∷◌, arith,
  Text, length, ltb, if◌then◌else◌,
}

-- The digits of `n` before the text `out`, in so many rounds at most.
unfoldable pub decimal_onto : ℕ → ℕ → Text → Text
decimal_onto zero n out = (b'0' + n) ∷ out
decimal_onto (suc rounds) n out =
    let rest = decimal_onto rounds (n / 10) ((b'0' + n % 10) ∷ out) in
    if ltb n 10 then (b'0' + n) ∷ out else rest

-- `n` rounds are more than enough.
unfoldable pub decimal : ℕ → Text
unfolding decimal_onto
decimal n = decimal_onto n n []

-- A reader of decimal digits.
unfoldable pub read_onto : ℕ → Text → Option ℕ
read_onto n [] = some n
read_onto n (c ∷ rest) =
    let value = read_onto (10 * n + (c - b'0')) rest in
    if ltb c b'0' then none else if ltb b'9' c then none else value

unfoldable pub read_decimal : Text → Option ℕ
unfolding read_onto
read_decimal [] = none
read_decimal (c ∷ rest) = read_onto 0 (c ∷ rest)

read-decimal_onto :
    (rounds n : ℕ) (out : Text)
    → n ≤ rounds
    → read_onto 0 (decimal_onto rounds n out) ≡ read_onto n out
unfolding decimal_onto read_onto
read-decimal_onto zero n out le = ground arith
read-decimal_onto (suc rounds) n out le =
    ground (arith, read-decimal_onto rounds (n / 10) ((b'0' + n % 10) ∷ out))

decimal_onto-length : (rounds n : ℕ) (out : Text) → 0 < length (decimal_onto rounds n out)
unfolding decimal_onto
decimal_onto-length zero n out = omega arith
decimal_onto-length (suc rounds) n out =
    ground (arith, decimal_onto-length rounds (n / 10) ((b'0' + n % 10) ∷ out))

read_decimal-read_onto : (s : Text) → 0 < length s → read_decimal s ≡ read_onto 0 s
unfolding read_decimal
read_decimal-read_onto [] h = absurd (omega arith)
read_decimal-read_onto (c ∷ s) h = refl

-- The number is read back from its digits.
pub read-decimal : (n : ℕ) → read_decimal (decimal n) ≡ some n
unfolding decimal read_onto
read-decimal n =
    rw (read_decimal-read_onto (decimal_onto n n []) (decimal_onto-length n n []))
      (read-decimal_onto n n [] (omega arith))
