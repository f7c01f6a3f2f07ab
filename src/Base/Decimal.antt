-- ===== src/Base/Decimal.antt =====
-- Decimal numerals, as a template literal prints a number and `Number` reads a run of digits.
use jupyter_plugin_aitermina.Base.Tests.{leb, ltb, if◌then◌else◌, Bool-cases}
use jupyter_plugin_aitermina.Base.Strings.{Text}
use jupyter_plugin_aitermina.Base.Lists.{all}
use Prim.Native.Nat.{ℕ, zero, suc, ◌+◌, ◌-◌, ◌*◌, ◌/◌, ◌%◌, ◌<◌}
use mathlib.Core.Path.{◌≡◌, refl, ap, sym, ◌∙◌}
use mathlib.Core.Logic.{◌≢◌, inl, inr}
use mathlib.Core.Bool.{Bool, true, ◌&&◌}
use mathlib.Core.List.{[], ◌∷◌, ◌++◌}
use mathlib.Core.Option.{Option, none, some}
use native.Mathlib.Omega.{arith}

print_digits : ℕ → ℕ → Text
print_digits zero n = []
print_digits (suc fuel) n =
    let rest = print_digits fuel (n / 10) ++ (48 + n % 10) ∷ [] in
    if ltb n 10 then (48 + n) ∷ [] else rest

-- The number of digits is below the fuel.
unfoldable pub decimal : ℕ → Text
unfolding print_digits
decimal n = print_digits (n + 1) n

abbrev pub is_digit : ℕ → Bool
is_digit c = leb 48 c && leb c 57

read_digits : ℕ → Text → ℕ
read_digits acc [] = acc
read_digits acc (c ∷ s) = read_digits (acc * 10 + (c - 48)) s

-- `/^(\d+)$/` and `Number`.
unfoldable pub read_decimal : Text → Option ℕ
unfolding read_digits
read_decimal [] = none
read_decimal (c ∷ s) = if all is_digit (c ∷ s) then some (read_digits 0 (c ∷ s)) else none

read_digits-append :
    (acc : ℕ) (s : Text) (c : ℕ) → read_digits acc (s ++ c ∷ []) ≡ read_digits acc s * 10 + (c - 48)
unfolding read_digits
read_digits-append acc [] c = refl
read_digits-append acc (d ∷ s) c = read_digits-append (acc * 10 + (d - 48)) s c

digits_step :
    (f n : ℕ)
    → read_digits 0 (print_digits f (n / 10)) ≡ n / 10
    → read_digits 0 (print_digits f (n / 10) ++ (48 + n % 10) ∷ []) ≡ n
digits_step f n e = read_digits-append 0 (print_digits f (n / 10)) (48 + n % 10) ∙ omega (arith, e)

read_digits-print : (fuel n : ℕ) → n < fuel → read_digits 0 (print_digits fuel n) ≡ n
unfolding print_digits
read_digits-print zero n h = elim h [ ]
read_digits-print (suc fuel) n h = elim (Bool-cases (ltb n 10)) [
  | inl e ↦ rw e (unfold read_digits in omega arith)
  | inr e ↦ rw e (digits_step fuel n (read_digits-print fuel (n / 10) (ground arith)))
]

all-append :
    (s : Text) (c : ℕ)
    → all is_digit s ≡ true
    → is_digit c ≡ true
    → all is_digit (s ++ c ∷ []) ≡ true
all-append [] c h k = rw k
all-append (d ∷ s) c h k = ground (arith, all-append s c)

append-ne-nil : (s : Text) (c : ℕ) → s ++ c ∷ [] ≢ []
append-ne-nil [] c h = cc
append-ne-nil (d ∷ s) c h = cc

print_digits-digits :
    (fuel n : ℕ)
    → n < fuel
    → (all is_digit (print_digits fuel n) ≡ true) × (print_digits fuel n ≢ [])
unfolding print_digits
print_digits-digits zero n h = elim h [ ]
print_digits-digits (suc fuel) n h = elim (Bool-cases (ltb n 10)) [
  | inl e ↦ rw e (ground arith, λ k. cc)
  | inr e ↦ rw e (
    all-append (print_digits fuel (n / 10)) (48 + n % 10)
        (print_digits-digits fuel (n / 10) (ground arith)).0 (ground arith),
    append-ne-nil (print_digits fuel (n / 10)) (48 + n % 10),
  )
]

read_decimal-digits :
    (s : Text) → all is_digit s ≡ true → s ≢ [] → read_decimal s ≡ some (read_digits 0 s)
unfolding read_decimal
read_decimal-digits [] h k = absurd (k refl)
read_decimal-digits (c ∷ s) h k = rw h

-- A number that is printed is read back.
pub read_decimal-decimal : (n : ℕ) → read_decimal (decimal n) ≡ some n
unfolding decimal
read_decimal-decimal n =
    let (digits, full) = print_digits-digits (n + 1) n (omega arith) in
    read_decimal-digits _ digits full ∙ ap some (read_digits-print (n + 1) n (omega arith))

pub decimal-injective : (m n : ℕ) → decimal m ≡ decimal n → m ≡ n
decimal-injective m n e =
    let same : some m ≡ some n =
      sym (read_decimal-decimal m) ∙ ap read_decimal e ∙ read_decimal-decimal n in
    cc

pub decimal-ne-nil : (n : ℕ) → decimal n ≢ []
unfolding decimal
decimal-ne-nil n = (print_digits-digits (n + 1) n (omega arith)).1
