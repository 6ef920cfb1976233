-- ===== src/Text/Decimal.antt =====
-- std::to_string on unsigned values, std::stoi and atoi. Overflow of `int` is not modelled: the
-- callers pass ports, bytes and user numbers.
use network_programming_demo.Prelude.{
  ℕ, zero, suc, ◌+◌, ◌-◌, ◌*◌, ◌/◌, ◌%◌, ◌<◌, true, [], ◌∷◌, ◌++◌, Option, none, some, ◌==◌, ltb,
  if◌then◌else◌, ◌≡◌, refl, ◌≢◌, arith, ◌∙◌, append_assoc, All, All-append, ap, Bool-cases, inl,
  inr, append-nil,
}
use network_programming_demo.Prelude.Int.{ℤ, pos, negsuc}
use network_programming_demo.Text.Bytes.{Bytes, is_digit, is_space}

-- The digits of `n`, highest first; one round of fuel for each digit.
to_string_fuel : ℕ → ℕ → Bytes
to_string_fuel zero n = []
to_string_fuel (suc f) n =
    let front = to_string_fuel f (n / 10) in
    if ltb n 10 then (b'0' + n) ∷ [] else front ++ (b'0' + n % 10) ∷ []

unfoldable pub to_string : ℕ → Bytes
unfolding to_string_fuel
to_string n = to_string_fuel (suc n) n

-- The value of the digits in front, added to those read before.
unfoldable pub digits_value : ℕ → Bytes → ℕ
digits_value acc [] = acc
digits_value acc (c ∷ s) = if is_digit c then digits_value (acc * 10 + (c - b'0')) s else acc

unfoldable pub skip_space : Bytes → Bytes
skip_space [] = []
skip_space (c ∷ s) = if is_space c then skip_space s else c ∷ s

abbrev pub negate : ℕ → ℤ
negate zero = pos 0
negate (suc n) = negsuc n

abbrev atoi_sign : Bytes → ℤ
atoi_sign [] = pos 0
atoi_sign (c ∷ s) =
    if c == b'-'
    then negate (digits_value 0 s)
    else if c == b'+'
    then pos (digits_value 0 s)
    else pos (digits_value 0 (c ∷ s))

-- A text with no number in front counts as 0.
unfoldable pub atoi : Bytes → ℤ
unfolding skip_space digits_value
atoi s = atoi_sign (skip_space s)

abbrev stoi_digits : Bytes → Option ℕ
stoi_digits [] = none
stoi_digits (c ∷ s) = if is_digit c then some (digits_value 0 (c ∷ s)) else none

-- `none` is std::invalid_argument. No caller passes a sign.
unfoldable pub stoi : Bytes → Option ℕ
unfolding skip_space digits_value
stoi s = stoi_digits (skip_space s)

digits_value-to_string_fuel :
    (f n : ℕ) (rest : Bytes)
    → n < f
    → digits_value 0 (to_string_fuel f n ++ rest) ≡ digits_value n rest
unfolding to_string_fuel digits_value
digits_value-to_string_fuel zero n rest h = elim h [ ]
digits_value-to_string_fuel (suc f) n rest h = elim (Bool-cases (ltb n 10)) [
  | inl small ↦ ground arith
  | inr large ↦
      rw (large, append_assoc)
        (digits_value-to_string_fuel f (n / 10) ((b'0' + n % 10) ∷ rest) (ground arith)
          ∙ ground arith)
]

-- Reading back the digits of `n`, up to the first byte that is no digit.
pub digits_value-to_string :
    (n : ℕ) (rest : Bytes) → digits_value 0 (to_string n ++ rest) ≡ digits_value n rest
unfolding to_string
digits_value-to_string n rest = digits_value-to_string_fuel (suc n) n rest (omega arith)

abbrev pub IsDigits : Bytes → Type 0
IsDigits = All (λ c. is_digit c ≡ true)

to_string_fuel-IsDigits : (f n : ℕ) → IsDigits (to_string_fuel f n)
unfolding to_string_fuel
to_string_fuel-IsDigits zero n = tt
to_string_fuel-IsDigits (suc f) n = elim (Bool-cases (ltb n 10)) [
  | inl small ↦ rw small (ground arith, tt)
  | inr large ↦ rw large (
      All-append (λ c. is_digit c ≡ true) (to_string_fuel f (n / 10)) ((b'0' + n % 10) ∷ [])
        (to_string_fuel-IsDigits f (n / 10)) (ground arith, tt))
]

pub to_string-IsDigits : (n : ℕ) → IsDigits (to_string n)
unfolding to_string
to_string-IsDigits n = to_string_fuel-IsDigits (suc n) n

append_one-ne-nil : (xs : Bytes) (c : ℕ) → xs ++ c ∷ [] ≢ []
append_one-ne-nil [] c = cc
append_one-ne-nil (x ∷ xs) c = cc

pub to_string-ne-nil : (n : ℕ) → to_string n ≢ []
unfolding to_string to_string_fuel
to_string-ne-nil n = elim (Bool-cases (ltb n 10)) [
  | inl small ↦ rw small (cc)
  | inr large ↦ rw large (append_one-ne-nil _ _)
]

stoi-IsDigits : (s : Bytes) → IsDigits s → s ≢ [] → stoi s ≡ some (digits_value 0 s)
unfolding stoi
stoi-IsDigits [] h ne = absurd (ne refl)
stoi-IsDigits (c ∷ s) h ne = ground arith

-- `stoi(to_string(n))` is `n`.
pub stoi-to_string : (n : ℕ) → stoi (to_string n) ≡ some n
stoi-to_string n =
    stoi-IsDigits (to_string n) (to_string-IsDigits n) (to_string-ne-nil n) ∙ ap some value
  where
    value : digits_value 0 (to_string n) ≡ n
    value = rw append-nil at (digits_value-to_string n []) ∙ unfold digits_value in refl

pub to_string_injective : (m n : ℕ) → to_string m ≡ to_string n → m ≡ n
to_string_injective m n e = cc (stoi-to_string m, stoi-to_string n, ap stoi e)
