-- ===== src/Base/Decimal.antt =====
-- Numbers as decimal digits: `to_string` and `parse::<uN>` of the standard library.
use Prim.Native.Nat.{ℕ, zero, suc, ◌+◌, ◌-◌, ◌*◌, ◌/◌, ◌%◌, ◌^◌, ◌<◌}
use mathlib.Core.Path.{◌≡◌, refl}
use mathlib.Core.List.{[], ◌∷◌, ◌++◌}
use mathlib.Core.Option.{Option, none, some}
use mathlib.Core.Logic.{dite}
use mathlib.Core.WellFounded.{Acc, WellFounded}
use native.Mathlib.Omega.{arith}
use native.Mathlib.Decide.{dec_lt}
use pg_migrator.Base.Tests.{ltb, ◌==◌, if◌then◌else◌}
use pg_migrator.Base.Texts.{Text, lit, is_ascii_digit}

Acc-below : (k n : ℕ) → n < k → Acc ◌<◌ n
Acc-below zero n h = elim h [ ]
Acc-below (suc k) n h = Acc.intro n (λ m hm. Acc-below k m (omega arith))

lt_wf : WellFounded ◌<◌
unfolding Acc-below
lt_wf = record { apply = λ n. Acc-below (suc n) n (omega arith) }

smaller_tenth : (n : ℕ) → ¬ (n < 10) → n / 10 < n
smaller_tenth n h = omega arith

to_text_acc : (n : ℕ) → Acc ◌<◌ n → Text
to_text_acc n (Acc.intro _ smaller) =
    dite (dec_lt n 10) (λ _. (48 + n) ∷ [])
      (λ h. to_text_acc (n / 10) (smaller (n / 10) (smaller_tenth n h)) ++ (48 + n % 10) ∷ [])

-- `n.to_string()`
unfoldable pub to_text : ℕ → Text
unfolding to_text_acc lt_wf smaller_tenth dec_lt
to_text n = to_text_acc n (lt_wf.apply n)

to_text_runs : to_text 5432 ≡ lit "5432"
unfolding to_text lit
to_text_runs = refl

digits_value : ℕ → Text → Option ℕ
digits_value acc [] = some acc
digits_value acc (c ∷ s) = if is_ascii_digit c then digits_value (acc * 10 + (c - 48)) s else none

-- the digits after an optional plus sign, at least one, with a value that the type holds
parse_digits : ℕ → Text → Option ℕ
parse_digits bits [] = none
parse_digits bits (c ∷ s) = elim (digits_value 0 (c ∷ s)) [
  | none ↦ none
  | some v ↦ if ltb v (2 ^ bits) then some v else none
]

-- `s.parse::<uN>().ok()`
unfoldable pub parse_unsigned : ℕ → Text → Option ℕ
unfolding parse_digits digits_value
parse_unsigned bits [] = none
parse_unsigned bits (c ∷ s) = if c == b'+' then parse_digits bits s else parse_digits bits (c ∷ s)
