-- ===== src/Base/Decimal.antt =====
-- Decimal text: `BigInt(text)` of digits and `toString()` of a number that is not negative.
use Prim.Native.Nat.{ℕ, zero, suc, ◌+◌, ◌-◌, ◌*◌, ◌/◌, ◌%◌, ◌<◌}
use Prim.Native.Char.{Char, code}
use Prim.Native.String.{String, [], ◌∷◌}
use mathlib.Core.Path.{◌≡◌, refl, ◌∙◌, ap}
use mathlib.Core.Logic.{inl, inr}
use mathlib.Core.Bool.{Bool, true, false, ◌&&◌}
use native.Mathlib.Omega.{arith}
use creative_backend.Base.Tests.{ltb, leb, if◌then◌else◌, Bool-cases, ltb→lt}
use creative_backend.Base.Text.{every, is_empty, is_space, not_space}

-- `/^\d+$/` on one character
unfoldable pub is_digit : Char → Bool
is_digit c = leb 48 (code c) && leb (code c) 57

unfoldable pub digit : ℕ → Char
digit zero = "0"
digit (suc zero) = "1"
digit (suc (suc zero)) = "2"
digit (suc (suc (suc zero))) = "3"
digit (suc (suc (suc (suc zero)))) = "4"
digit (suc (suc (suc (suc (suc zero))))) = "5"
digit (suc (suc (suc (suc (suc (suc zero)))))) = "6"
digit (suc (suc (suc (suc (suc (suc (suc zero))))))) = "7"
digit (suc (suc (suc (suc (suc (suc (suc (suc zero)))))))) = "8"
digit _ = "9"

digit_code : (n : ℕ) → n < 10 → code (digit n) ≡ 48 + n
unfolding digit
digit_code zero h = refl
digit_code (suc zero) h = refl
digit_code (suc (suc zero)) h = refl
digit_code (suc (suc (suc zero))) h = refl
digit_code (suc (suc (suc (suc zero)))) h = refl
digit_code (suc (suc (suc (suc (suc zero))))) h = refl
digit_code (suc (suc (suc (suc (suc (suc zero)))))) h = refl
digit_code (suc (suc (suc (suc (suc (suc (suc zero))))))) h = refl
digit_code (suc (suc (suc (suc (suc (suc (suc (suc zero)))))))) h = refl
digit_code (suc (suc (suc (suc (suc (suc (suc (suc (suc zero))))))))) h = refl
digit_code (suc (suc (suc (suc (suc (suc (suc (suc (suc (suc n)))))))))) h = absurd (omega arith)

-- the digits of `n` in front of `rest`, with more fuel than `n`
unfoldable pub print_onto : (fuel n : ℕ) → String → String
unfolding digit
print_onto zero n rest = rest
print_onto (suc fuel) n rest =
    let more = print_onto fuel (n / 10) (digit (n % 10) ∷ rest) in
    if ltb n 10 then digit (n % 10) ∷ rest else more

unfoldable pub to_string : ℕ → String
unfolding print_onto
to_string n = print_onto (suc n) n []

-- the value of digits behind a value
unfoldable pub read_from : ℕ → String → ℕ
read_from value [] = value
read_from value (c ∷ s) = read_from (value * 10 + (code c - 48)) s

read_from-print_onto :
    (fuel n : ℕ) (rest : String)
    → n < fuel
    → read_from 0 (print_onto fuel n rest) ≡ read_from n rest
unfolding read_from print_onto
read_from-print_onto zero n rest h = absurd (omega arith)
read_from-print_onto (suc fuel) n rest h = elim (Bool-cases (ltb n 10)) [
  | inl e ↦
      rw e (
        ap (λ v. read_from v rest)
          (omega (arith, digit_code (n % 10) (omega arith), ltb→lt n 10 e)))
  | inr e ↦ rw e (
      read_from-print_onto fuel (n / 10) (digit (n % 10) ∷ rest) (ground (arith, e, h))
      ∙ ap (λ v. read_from v rest) (omega (arith, digit_code (n % 10) (omega arith))))
]

pub read_from-to_string : (n : ℕ) → read_from 0 (to_string n) ≡ n
unfolding to_string
read_from-to_string n = read_from-print_onto (suc n) n [] (omega arith) ∙ unfold read_from in refl

print_onto-digits :
    (fuel n : ℕ) (rest : String)
    → every is_digit rest ≡ true
    → every is_digit (print_onto fuel n rest) ≡ true
unfolding print_onto
print_onto-digits zero n rest h = h
print_onto-digits (suc fuel) n rest h =
    let own : is_digit (digit (n % 10)) ≡ true =
      unfold is_digit in ground (arith, digit_code (n % 10) (omega arith), n) in
    ground (arith, h, own, print_onto-digits fuel (n / 10) (digit (n % 10) ∷ rest))

print_onto-ne-empty :
    (fuel n : ℕ) (rest : String) → is_empty rest ≡ false → is_empty (print_onto fuel n rest) ≡ false
unfolding print_onto
print_onto-ne-empty zero n rest h = h
print_onto-ne-empty (suc fuel) n rest h =
    ground (arith, print_onto-ne-empty fuel (n / 10) (digit (n % 10) ∷ rest))

pub to_string-digits : (n : ℕ) → every is_digit (to_string n) ≡ true
unfolding to_string
to_string-digits n = print_onto-digits (suc n) n [] refl

pub to_string-ne-empty : (n : ℕ) → is_empty (to_string n) ≡ false
unfolding to_string print_onto
to_string-ne-empty n = ground (arith, print_onto-ne-empty n (n / 10) (digit (n % 10) ∷ []) refl)

pub digits-not_space : (s : String) → every is_digit s ≡ true → every not_space s ≡ true
unfolding is_digit is_space
digits-not_space [] h = refl
digits-not_space (c ∷ s) h = ground (arith, digits-not_space s)
