-- ===== src/Prelude/Decimal.antt =====
-- `str(n)` of a natural number, and that two numbers have different texts.
use Prim.Native.Nat.{ℕ, zero, suc, ◌+◌, ◌-◌, ◌*◌, ◌/◌, ◌%◌, ◌<◌, ◌≤◌}
use Prim.Native.Char.{code}
use Prim.Native.String.{String, ◌++◌ as str_append}
use Prim.Native.String.append
use mathlib.Core.Path.{◌≡◌, refl, sym, ap, ◌∙◌}
use mathlib.Core.Logic.{inl, inr}
use native.Mathlib.Omega.{arith}
use graphon.Prelude.Tests.{ltb, ltb→lt, Bool-cases, if◌then◌else◌}

digit : ℕ → String
digit zero = "0"
digit (suc zero) = "1"
digit (suc (suc zero)) = "2"
digit (suc (suc (suc zero))) = "3"
digit (suc (suc (suc (suc zero)))) = "4"
digit (suc (suc (suc (suc (suc zero))))) = "5"
digit (suc (suc (suc (suc (suc (suc zero)))))) = "6"
digit (suc (suc (suc (suc (suc (suc (suc zero))))))) = "7"
digit (suc (suc (suc (suc (suc (suc (suc (suc zero)))))))) = "8"
digit _ = "9"

-- The digits of a number, for as many rounds as the first argument allows.
digits_of : ℕ → ℕ → String
digits_of zero n = digit n
digits_of (suc fuel) n =
    let rest = digits_of fuel (n / 10) in
    if ltb n 10 then digit n else str_append rest (digit (n % 10))

-- A number has fewer digits than it counts, so that the fuel lasts.
unfoldable pub decimal : ℕ → String
unfolding digits_of digit
decimal n = digits_of n n

-- The number that a text of digits stands for, behind the digits read so far.
value : String → ℕ → ℕ
value String.[] acc = acc
value (String.◌∷◌ c s) acc = value s (acc * 10 + (code c - 48))

value-append : (s t : String) (acc : ℕ) → value (str_append s t) acc ≡ value t (value s acc)
unfolding value
value-append String.[] t acc = rw append.nil
value-append (String.◌∷◌ c s) t acc = rw append.cons (value-append s t (acc * 10 + (code c - 48)))

value-digit : (d acc : ℕ) → d < 10 → value (digit d) acc ≡ acc * 10 + d
unfolding value digit
value-digit zero acc h = refl
value-digit (suc zero) acc h = refl
value-digit (suc (suc zero)) acc h = refl
value-digit (suc (suc (suc zero))) acc h = refl
value-digit (suc (suc (suc (suc zero)))) acc h = refl
value-digit (suc (suc (suc (suc (suc zero))))) acc h = refl
value-digit (suc (suc (suc (suc (suc (suc zero)))))) acc h = refl
value-digit (suc (suc (suc (suc (suc (suc (suc zero))))))) acc h = refl
value-digit (suc (suc (suc (suc (suc (suc (suc (suc zero)))))))) acc h = refl
value-digit (suc (suc (suc (suc (suc (suc (suc (suc (suc zero))))))))) acc h = refl
value-digit (suc (suc (suc (suc (suc (suc (suc (suc (suc (suc n)))))))))) acc h =
    absurd (omega arith)

value-digits_of : (fuel n : ℕ) → n ≤ fuel + 9 → value (digits_of fuel n) 0 ≡ n
unfolding digits_of
value-digits_of zero n h = value-digit n 0 (omega arith) ∙ omega arith
value-digits_of (suc fuel) n h = elim (Bool-cases (ltb n 10)) [
  | inl small ↦ rw small (value-digit n 0 (ltb→lt n 10 small) ∙ omega arith)
  | inr large ↦
      let ten : 10 ≤ n = ground arith in
      rw large (
        value-append (digits_of fuel (n / 10)) (digit (n % 10)) 0
        ∙ value-digit (n % 10) (value (digits_of fuel (n / 10)) 0) (omega arith)
        ∙ omega (arith, value-digits_of fuel (n / 10) (omega arith)))
]

-- Two numbers with the same text are the same.
pub decimal-injective : (m n : ℕ) → decimal m ≡ decimal n → m ≡ n
unfolding decimal
decimal-injective m n e =
    sym (value-digits_of m m (omega arith))
    ∙ ap (λ s. value s 0) e
    ∙ value-digits_of n n (omega arith)
