-- ===== src/Prelude/Decimal.antt =====
-- Decimal numbers as the program prints and parses them: `format!("{}", n)` and
-- `str::parse::<u64>`.
use Prim.Native.Nat.{ℕ, zero, suc, ◌+◌, ◌-◌, ◌*◌, ◌/◌, ◌%◌, ◌^◌, ◌<◌}
use mathlib.Core.Path.{◌≡◌, refl}
use mathlib.Core.Logic.{◌≢◌, inl, inr}
use mathlib.Core.Bool.{Bool, true, ◌&&◌}
use mathlib.Core.List.{[], ◌∷◌, ◌++◌}
use mathlib.Core.Option.{Option, none, some}
use native.Mathlib.Omega.{arith}
use nozdormu.Prelude.Tests.{ltb, leb, ◌==◌, Bool-cases, if◌then◌else◌}
use nozdormu.Prelude.Lists.{All, All-append}
use nozdormu.Prelude.Text.{Text}

abbrev pub u64_mod : ℕ
u64_mod = 2 ^ 64

abbrev pub is_digit : ℕ → Bool
is_digit c = leb b'0' c && leb c b'9'

-- The loop of `parse::<u64>`: checked multiplication and addition.
pub parse_digits : ℕ → Text → Option ℕ
parse_digits n [] = some n
parse_digits n (c ∷ s) =
    let next = n * 10 + (c - b'0') in
    let rest = parse_digits next s in if is_digit c && ltb next u64_mod then rest else none

-- One optional `+`, and then at least one digit.
unfoldable pub parse_u64 : Text → Option ℕ
unfolding parse_digits
parse_u64 [] = none
parse_u64 (c ∷ []) = parse_digits 0 (c ∷ [])
parse_u64 (c ∷ d ∷ s) = if c == b'+' then parse_digits 0 (d ∷ s) else parse_digits 0 (c ∷ d ∷ s)

-- The digits of `n`, with fuel: `n + 1` rounds are enough, since each divides by ten.
pub digits : ℕ → ℕ → Text
digits zero n = []
digits (suc f) n =
    let rest = digits f (n / 10) in
    if ltb n 10 then (b'0' + n) ∷ [] else rest ++ ((b'0' + n % 10) ∷ [])

unfoldable pub format : ℕ → Text
unfolding digits
format n = digits (suc n) n

pub parse_digits-append :
    (n m : ℕ) (s t : Text) → parse_digits n s ≡ some m → parse_digits n (s ++ t) ≡ parse_digits m t
unfolding parse_digits
parse_digits-append n m [] t h = ground arith
parse_digits-append n m (c ∷ s) t h =
    ground (arith, parse_digits-append (n * 10 + (c - b'0')) m s t)

parse_digits_last :
    (n c : ℕ) → c < 10 → n * 10 + c < u64_mod → parse_digits n ((b'0' + c) ∷ []) ≡ some (n * 10 + c)
unfolding parse_digits
parse_digits_last n c h k = ground arith

parse_digits-digits : (f n : ℕ) → n < f → n < u64_mod → parse_digits 0 (digits f n) ≡ some n
unfolding digits
parse_digits-digits zero n h k = absurd (omega arith)
parse_digits-digits (suc f) n h k = ground (
  arith,
  parse_digits-append 0 (n / 10) (digits f (n / 10)) ((b'0' + n % 10) ∷ []),
  parse_digits_last (n / 10) (n % 10),
  parse_digits_last 0 n,
  parse_digits-digits f (n / 10),
)

-- Every character of a printed number is a digit.
pub digits-All : (f n : ℕ) → All (λ c. is_digit c ≡ true) (digits f n)
unfolding digits
digits-All zero n = tt
digits-All (suc f) n = elim (Bool-cases (ltb n 10)) [
  | inl small ↦ rw small (ground arith, tt)
  | inr big ↦ rw big (All-append _ (digits f (n / 10)) _ (digits-All f (n / 10)) (ground arith, tt))
]

append-ne-nil : (s : Text) (c : ℕ) → s ++ (c ∷ []) ≢ []
append-ne-nil [] c = ground arith
append-ne-nil (d ∷ s) c = ground arith

digits-ne-nil : (f n : ℕ) → digits (suc f) n ≢ []
unfolding digits
digits-ne-nil f n = elim (Bool-cases (ltb n 10)) [
  | inl small ↦ rw small (ground arith)
  | inr big ↦ rw big (append-ne-nil (digits f (n / 10)) _)
]

parse_u64_of_digits :
    (s : Text) → s ≢ [] → All (λ c. is_digit c ≡ true) s → parse_u64 s ≡ parse_digits 0 s
unfolding parse_u64
parse_u64_of_digits [] h d = absurd (h refl)
parse_u64_of_digits (c ∷ []) h d = refl
parse_u64_of_digits (c ∷ e ∷ s) h d = ground arith

-- Parsing undoes printing.
pub parse_u64-format : (n : ℕ) → n < u64_mod → parse_u64 (format n) ≡ some n
unfolding format
parse_u64-format n h =
    rw (parse_u64_of_digits (digits (suc n) n) (digits-ne-nil n n) (digits-All (suc n) n))
      (parse_digits-digits (suc n) n (omega arith) h)

pub format-All : (n : ℕ) → All (λ c. is_digit c ≡ true) (format n)
unfolding format
format-All n = digits-All (suc n) n

pub format-ne-nil : (n : ℕ) → format n ≢ []
unfolding format
format-ne-nil n = digits-ne-nil n n
