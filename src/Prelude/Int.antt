-- ===== src/Prelude/Int.antt =====
-- Rust's `i64` where the source reads a negative value: `negsuc n` is -(n + 1).
use Prim.Native.Nat.{ℕ, zero, suc, ◌+◌, ◌*◌, ◌-◌, ◌^◌}
use mathlib.Core.Bool.{Bool, true, false, ◌&&◌}
use mathlib.Core.Option.{Option, none, some}
use mathlib.Core.List.{[], ◌∷◌}
use mathlib.Core.Path.{◌≡◌}
use mathlib.Core.Logic.{◌↔◌}
use native.Mathlib.Omega.{arith}
use hop_rs.Prelude.Tests.{nat_eq, ltb, leb, if◌then◌else◌}
use hop_rs.Prelude.Texts.{Text, decimal}

pub data ℤ : Type 0 where
  pos : ℕ → ℤ
  negsuc : ℕ → ℤ

-- `i64 == i64`, against a number that is not negative.
unfoldable pub int_eq_nat : ℤ → ℕ → Bool
int_eq_nat (pos n) m = nat_eq n m
int_eq_nat (negsuc n) m = false

-- `i64 == i64`
unfoldable pub int_eq : ℤ → ℤ → Bool
int_eq (pos a) (pos b) = nat_eq a b
int_eq (negsuc a) (negsuc b) = nat_eq a b
int_eq _ _ = false

pub int_eq_iff : (a b : ℤ) → (int_eq a b ≡ true) ↔ (a ≡ b)
unfolding int_eq
int_eq_iff (pos a) b = ground arith
int_eq_iff (negsuc a) b = ground arith

-- `i64::to_string`
unfoldable pub int_decimal : ℤ → Text
unfolding decimal
int_decimal (pos n) = decimal n
int_decimal (negsuc n) = b'-' ∷ decimal (n + 1)

-- The number that decimal digits stand for, most significant first.
unfoldable pub digits_value : ℕ → Text → Option ℕ
digits_value sum [] = some sum
digits_value sum (c ∷ s) =
    if leb b'0' c && leb c b'9' then digits_value (sum * 10 + (c - b'0')) s else none

non_empty_digits : Text → Option ℕ
non_empty_digits [] = none
non_empty_digits (c ∷ s) = digits_value 0 (c ∷ s)

-- A number below the bound, under a sign.
signed : ℕ → (ℕ → ℤ) → Option ℕ → Option ℤ
signed bound sign none = none
signed bound sign (some n) = if ltb n bound then some (sign n) else none

negative : ℕ → ℤ
negative zero = pos 0
negative (suc n) = negsuc n

-- `str::parse::<i64>`: an optional sign, digits, and the range of 64 bits.
unfoldable pub parse_i64 : Text → Option ℤ
unfolding digits_value non_empty_digits signed negative
parse_i64 [] = none
parse_i64 (c ∷ s) =
    if nat_eq c b'-'
    then signed (2 ^ 63 + 1) negative (non_empty_digits s)
    else if nat_eq c b'+'
    then signed (2 ^ 63) pos (non_empty_digits s)
    else signed (2 ^ 63) pos (non_empty_digits (c ∷ s))
