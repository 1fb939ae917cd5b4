-- ===== src/Shared/Decimal/Read.antt =====
-- A number that was written is read back.
use Prim.Native.Nat.{ℕ, zero, suc, ◌+◌, ◌-◌, ◌*◌, ◌/◌, ◌%◌, ◌<◌, ◌≤◌}
use Prim.Native.Char.{code}
use Prim.Native.String.{String, ◌++◌ as append}
use text.Mathlib.TextLemmas.{nil-append, cons-append}
use mathlib.Core.Path.{◌≡◌, refl, ap, ◌∙◌}
use mathlib.Core.Logic.{inl, inr}
use native.Mathlib.Omega.{arith}
use dist_gatling.Shared.Tests.{ltb, Bool-cases, ltb→lt}
use dist_gatling.Shared.Lists.{get_elem?}
use dist_gatling.Shared.Decimal.{digits, digit_of, decimal_upto, decimal}

-- the digits of a text after a number
pub read : ℕ → String → ℕ
read a String.[] = a
read a (String.◌∷◌ c s) = read (a * 10 + (code c - b'0')) s

read-append : (a : ℕ) (s t : String) → read a (append s t) ≡ read (read a s) t
unfolding read
read-append a String.[] t = ap (read a) (nil-append t)
read-append a (String.◌∷◌ c s) t =
    ap (read a) (cons-append c s t) ∙ read-append (a * 10 + (code c - b'0')) s t

read-digit : (a d : ℕ) → d < 10 → read a (digit_of (get_elem? digits d)) ≡ a * 10 + d
unfolding read
read-digit a zero h = refl
read-digit a (suc zero) h = refl
read-digit a (suc (suc zero)) h = refl
read-digit a (suc (suc (suc zero))) h = refl
read-digit a (suc (suc (suc (suc zero)))) h = refl
read-digit a (suc (suc (suc (suc (suc zero))))) h = refl
read-digit a (suc (suc (suc (suc (suc (suc zero)))))) h = refl
read-digit a (suc (suc (suc (suc (suc (suc (suc zero))))))) h = refl
read-digit a (suc (suc (suc (suc (suc (suc (suc (suc zero)))))))) h = refl
read-digit a (suc (suc (suc (suc (suc (suc (suc (suc (suc zero))))))))) h = refl
read-digit a (suc (suc (suc (suc (suc (suc (suc (suc (suc (suc d)))))))))) h =
    absurd (omega (arith, h))

last : ℕ → String
last n = digit_of (get_elem? digits (n % 10))

read-last : (a n : ℕ) → read a (last n) ≡ a * 10 + n % 10
unfolding last
read-last a n = read-digit a (n % 10) (omega arith)

read-decimal_upto : (fuel n : ℕ) → n < fuel → read 0 (decimal_upto fuel n) ≡ n
unfolding decimal_upto last
read-decimal_upto zero n h = absurd (omega (arith, h))
read-decimal_upto (suc fuel) n h = elim (Bool-cases (ltb n 10)) [
  | inl e ↦ rw e (read-last 0 n ∙ omega (arith, ltb→lt n 10 e))
  | inr e ↦
      let big : 10 ≤ n = ground (arith, e) in
      rw e (
        read-append 0 (decimal_upto fuel (n / 10)) (last n)
        ∙ read-last (read 0 (decimal_upto fuel (n / 10))) n
        ∙ omega (arith, read-decimal_upto fuel (n / 10) (omega (arith, h, big))))
]

-- Reading what `decimal` writes gives the number: the digits are enough.
pub read-decimal : (n : ℕ) → read 0 (decimal n) ≡ n
unfolding decimal
read-decimal n = read-decimal_upto (suc n) n (omega arith)
