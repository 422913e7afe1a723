-- ===== src/Protocol/Decimal.antt =====
-- Decimal lengths: `f"{length}"`, `bytes.isdigit` and `int(length_bytes.decode("ascii"))`.
use native.Mathlib.Nat.{pow-suc}
use pclipsync.Base.{
  ℕ, zero, suc, ◌+◌, ◌-◌, ◌*◌, ◌/◌, ◌%◌, ◌^◌, ◌≤◌, ◌<◌, ◌≡◌, refl, Bool, true, ◌&&◌, List, [], ◌∷◌,
  ◌++◌, arith, ltb, leb, length, length-append,
}

unfoldable pub is_digit : ℕ → Bool
is_digit c = leb b'0' c && leb c b'9'

abbrev pub step : ℕ → ℕ → ℕ
step n c = n * 10 + (c - b'0')

-- The number that digits spell behind `n`.
unfoldable pub value : ℕ → List ℕ → ℕ
value n [] = n
value n (c ∷ cs) = value (step n c) cs

-- Digits of `n`, the most significant first; the fuel bounds their number.
digits : ℕ → ℕ → List ℕ
digits zero n = []
digits (suc fuel) n = elim (ltb n 10) [
  | true ↦ (b'0' + n) ∷ []
  | _ ↦ digits fuel (n / 10) ++ ((b'0' + n % 10) ∷ [])
]

unfoldable pub decimal : ℕ → List ℕ
unfolding digits
decimal n = digits (suc n) n

abbrev pub AllDigits : List ℕ → Type 0
AllDigits [] = Unit
AllDigits (c ∷ cs) = (is_digit c ≡ true) × AllDigits cs

pub AllDigits-append : (xs ys : List ℕ) → AllDigits xs → AllDigits ys → AllDigits (xs ++ ys)
AllDigits-append [] ys hx hy = hy
AllDigits-append (x ∷ xs) ys hx hy = (hx.0, AllDigits-append xs ys hx.1 hy)

pub value-append : (n : ℕ) (xs ys : List ℕ) → value n (xs ++ ys) ≡ value (value n xs) ys
unfolding value
value-append n [] ys = refl
value-append n (x ∷ xs) ys = value-append (step n x) xs ys

value-digits : (fuel n : ℕ) → n < fuel → value 0 (digits fuel n) ≡ n
unfolding digits value
value-digits zero n h = elim h [ ]
value-digits (suc fuel) n h = ground (
  arith,
  value-digits fuel (n / 10),
  value-append 0 (digits fuel (n / 10)) ((b'0' + n % 10) ∷ []),
)

digits-AllDigits : (fuel n : ℕ) → AllDigits (digits fuel n)
unfolding digits is_digit
digits-AllDigits zero n = tt
digits-AllDigits (suc fuel) n = ground (
  arith,
  digits-AllDigits fuel (n / 10),
  AllDigits-append (digits fuel (n / 10)) ((b'0' + n % 10) ∷ []),
)

-- A number below ten to the `k` has at most `k` digits.
length-digits : (fuel n k : ℕ) → n < fuel → n < 10 ^ suc k → length (digits fuel n) ≤ suc k
unfolding digits
length-digits zero n k h b = elim h [ ]
length-digits (suc fuel) n zero h b = ground arith
length-digits (suc fuel) n (suc k) h b = ground (
  arith,
  length-digits fuel (n / 10) k,
  length-append (digits fuel (n / 10)) ((b'0' + n % 10) ∷ []),
)

digits_nonempty : (fuel n : ℕ) → 0 < length (digits (suc fuel) n)
unfolding digits
digits_nonempty fuel n = ground (arith, length-append (digits fuel (n / 10)) ((b'0' + n % 10) ∷ []))

pub value-decimal : (n : ℕ) → value 0 (decimal n) ≡ n
unfolding decimal
value-decimal n = value-digits (suc n) n (omega arith)

pub decimal-AllDigits : (n : ℕ) → AllDigits (decimal n)
unfolding decimal
decimal-AllDigits n = digits-AllDigits (suc n) n

pub length-decimal-le : (n k : ℕ) → n < 10 ^ suc k → length (decimal n) ≤ suc k
unfolding decimal
length-decimal-le n k h = length-digits (suc n) n k (omega arith) h

pub length-decimal-pos : (n : ℕ) → 0 < length (decimal n)
unfolding decimal
length-decimal-pos n = digits_nonempty n n

pow_pos : (k : ℕ) → 1 ≤ 10 ^ k
pow_pos zero = omega arith
pow_pos (suc k) = omega (arith, pow_pos k, pow-suc 10 k)

digits-lt-length : (fuel n k : ℕ) → n < fuel → 10 ^ k ≤ n → k < length (digits fuel n)
unfolding digits
digits-lt-length zero n k h b = elim h [ ]
digits-lt-length (suc fuel) n zero h b = digits_nonempty fuel n
digits-lt-length (suc fuel) n (suc k) h b = ground (
  arith,
  digits-lt-length fuel (n / 10) k,
  pow-suc 10 k,
  pow_pos k,
  length-append (digits fuel (n / 10)) ((b'0' + n % 10) ∷ []),
)

-- A number that is at least ten to the `k` has more than `k` digits.
pub lt-length-decimal : (n k : ℕ) → 10 ^ k ≤ n → k < length (decimal n)
unfolding decimal
lt-length-decimal n k h = digits-lt-length (suc n) n k (omega arith) h
