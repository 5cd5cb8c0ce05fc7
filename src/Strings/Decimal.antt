-- ===== src/Strings/Decimal.antt =====
-- `fmt.Sprintf("%d", n)` and `strconv.Atoi` for Go's 64-bit `int`.
use eris_cli.Base.{
  ℕ, zero, suc, ◌+◌, ◌-◌, ◌*◌, ◌/◌, ◌%◌, ◌≤◌, ◌<◌, ◌≡◌, refl, ◌≢◌, ◌⊎◌, Bool, ◌&&◌, inl, inr,
  Option, none, some, [], ◌∷◌, ◌++◌, arith, ◌==◌, leb, if◌then◌else◌, Bool-cases, All,
}
use eris_cli.Base.Int.{ℤ, pos, negsuc, negate, max_int, InRange}
use eris_cli.Strings.{Text, codes}
use eris_cli.Strings.Laws.{Lacks}

-- The digits of `n` before `out`; the fuel is more than `n`.
digits : ℕ → ℕ → Text → Text
digits zero n out = out
digits (suc fuel) n out =
    let digit = b'0' + n % 10 in
    let more = digits fuel (n / 10) (digit ∷ out) in if n / 10 == 0 then digit ∷ out else more

unfoldable pub decimal : ℕ → Text
unfolding digits
decimal n = digits (suc n) n []

unfoldable pub itoa : ℤ → Text
unfolding decimal
itoa (pos n) = decimal n
itoa (negsuc n) = b'-' ∷ decimal (suc n)

is_digit : ℕ → Bool
is_digit c = leb b'0' c && leb c b'9'

scan : Text → ℕ → Option ℕ
scan [] n = some n
scan (c ∷ s) n = let rest = scan s (n * 10 + (c - b'0')) in if is_digit c then rest else none

unsigned : Text → Option ℕ
unsigned [] = none
unsigned (c ∷ s) = scan (c ∷ s) 0

positive : Option ℕ → Option ℤ
positive none = none
positive (some n) = if leb n max_int then some (pos n) else none

negative : Option ℕ → Option ℤ
negative none = none
negative (some n) = if leb n (suc max_int) then some (negate n) else none

-- `none` is the error of `Atoi`.
unfoldable pub atoi : Text → Option ℤ
unfolding is_digit scan unsigned positive negative
atoi [] = none
atoi (c ∷ s) =
    if c == b'-'
    then negative (unsigned s)
    else if c == b'+'
    then positive (unsigned s)
    else positive (unsigned (c ∷ s))

abbrev pub IsDigit : ℕ → Type 0
IsDigit c = (b'0' ≤ c) × (c ≤ b'9')

scan-digits : (fuel n : ℕ) (out : Text) → n < fuel → scan (digits fuel n out) 0 ≡ scan out n
unfolding scan digits is_digit
scan-digits zero n out h = absurd (omega arith)
scan-digits (suc fuel) n out h = elim (Bool-cases (n / 10 == 0)) [
  | inl small ↦ rw small (ground arith)
  | inr large ↦ rw large (ground (arith, scan-digits fuel (n / 10) ((b'0' + n % 10) ∷ out)))
]

digits-IsDigit : (fuel n : ℕ) (out : Text) → All IsDigit out → All IsDigit (digits fuel n out)
unfolding digits
digits-IsDigit zero n out h = h
digits-IsDigit (suc fuel) n out h = elim (Bool-cases (n / 10 == 0)) [
  | inl small ↦ rw small ((omega arith, omega arith), h)
  | inr large ↦ rw large (digits-IsDigit fuel (n / 10) _ ((omega arith, omega arith), h))
]

digits-ne-nil : (fuel n : ℕ) (out : Text) → out ≢ [] → digits fuel n out ≢ []
unfolding digits
digits-ne-nil zero n out h = h
digits-ne-nil (suc fuel) n out h = elim (Bool-cases (n / 10 == 0)) [
  | inl small ↦ rw small (cc)
  | inr large ↦ rw large (digits-ne-nil fuel (n / 10) _ (cc))
]

decimal-IsDigit : (n : ℕ) → All IsDigit (decimal n)
unfolding decimal
decimal-IsDigit n = digits-IsDigit (suc n) n [] tt

decimal-ne-nil : (n : ℕ) → decimal n ≢ []
unfolding decimal
decimal-ne-nil n = elim (Bool-cases (n / 10 == 0)) [
  | inl small ↦ rw small (cc)
  | inr large ↦ rw large (digits-ne-nil n (n / 10) _ (cc))
]

scan-decimal : (n : ℕ) → scan (decimal n) 0 ≡ some n
unfolding decimal scan
scan-decimal n = scan-digits (suc n) n [] (omega arith)

atoi_digits : (s : Text) → All IsDigit s → s ≢ [] → atoi s ≡ positive (scan s 0)
unfolding atoi
atoi_digits [] _ h = absurd (h refl)
atoi_digits (c ∷ s) ((low, high), _) h = ground arith

unsigned_digits : (s : Text) → s ≢ [] → unsigned s ≡ scan s 0
unfolding unsigned
unsigned_digits [] h = absurd (h refl)
unsigned_digits (c ∷ s) h = refl

-- `Atoi` reads back what `Sprintf("%d", ·)` prints, for every 64-bit `int`.
pub atoi-itoa : (z : ℤ) → InRange z → atoi (itoa z) ≡ some z
unfolding itoa positive
atoi-itoa (pos n) h =
    rw (atoi_digits (decimal n) (decimal-IsDigit n) (decimal-ne-nil n), scan-decimal) (ground arith)
atoi-itoa (negsuc n) h =
    unfold atoi in
    rw (unsigned_digits (decimal (suc n)) (decimal-ne-nil (suc n)), scan-decimal) (ground arith)

-- A printed number holds digits and a minus sign only.
abbrev pub IsNumeral : ℕ → Type 0
IsNumeral c = (c ≡ b'-') ⊎ IsDigit c

IsNumeral-of_digits : (s : Text) → All IsDigit s → All IsNumeral s
IsNumeral-of_digits [] h = tt
IsNumeral-of_digits (c ∷ s) (h, hs) = (inr h, IsNumeral-of_digits s hs)

pub itoa-IsNumeral : (z : ℤ) → All IsNumeral (itoa z)
unfolding itoa
itoa-IsNumeral (pos n) = IsNumeral-of_digits _ (decimal-IsDigit n)
itoa-IsNumeral (negsuc n) = (inl refl, IsNumeral-of_digits _ (decimal-IsDigit (suc n)))

pub numeral-Lacks : (b : ℕ) (s : Text) → ¬ IsNumeral b → All IsNumeral s → Lacks b s
numeral-Lacks b [] h _ = tt
numeral-Lacks b (c ∷ s) h (hc, hs) = ((λ e. h (rw (← e) hc)), numeral-Lacks b s h hs)

int_bounds :
    (atoi (codes "9223372036854775807") ≡ some (pos max_int))
    × (atoi (codes "9223372036854775808") ≡ none)
    × (atoi (codes "-9223372036854775808") ≡ some (negsuc max_int))
    × (atoi (codes "+05") ≡ some (pos 5))
    × (atoi (codes "5x") ≡ none)
    × (atoi (codes "-") ≡ none)
unfolding atoi
int_bounds = (refl, refl, refl, refl, refl, refl)

head-IsDigit :
    (s : Text) → All IsDigit s → s ≢ [] → (d : ℕ) × (rest : Text) × (s ≡ d ∷ rest) × IsDigit d
head-IsDigit [] _ h = absurd (h refl)
head-IsDigit (c ∷ s) (hc, _) h = (c, s, refl, hc)

-- The print of a number that is not negative starts with a digit.
pub itoa-cons : (n : ℕ) → (d : ℕ) × (rest : Text) × (itoa (pos n) ≡ d ∷ rest) × IsDigit d
unfolding itoa
itoa-cons n = head-IsDigit (decimal n) (decimal-IsDigit n) (decimal-ne-nil n)

digits-append : (fuel n : ℕ) (out t : Text) → digits fuel n (out ++ t) ≡ digits fuel n out ++ t
unfolding digits
digits-append zero n out t = refl
digits-append (suc fuel) n out t = elim (Bool-cases (n / 10 == 0)) [
  | inl small ↦ rw small
  | inr large ↦ rw large (digits-append fuel (n / 10) ((b'0' + n % 10) ∷ out) t)
]

digits_enough : (f g n : ℕ) (out : Text) → n < f → n < g → digits f n out ≡ digits g n out
unfolding digits
digits_enough zero g n out h k = absurd (omega arith)
digits_enough (suc f) zero n out h k = absurd (omega arith)
digits_enough (suc f) (suc g) n out h k = elim (Bool-cases (n / 10 == 0)) [
  | inl small ↦ rw small
  | inr large ↦
      rw large (digits_enough f g (n / 10) ((b'0' + n % 10) ∷ out) (ground arith) (ground arith))
]

digits_step :
    (m n d : ℕ)
    → m ≡ n * 10 + d
    → 0 < n
    → d < 10
    → digits (suc m) m [] ≡ digits m n ([] ++ (b'0' + d) ∷ [])
unfolding digits
digits_step m n d e h k =
    let tens : m / 10 ≡ n = omega arith in
    let unit : m % 10 ≡ d = omega arith in rw (tens, unit) (ground arith)

-- One more digit behind a positive number.
pub itoa_snoc :
    (n d : ℕ) → 0 < n → d < 10 → itoa (pos (n * 10 + d)) ≡ itoa (pos n) ++ (b'0' + d) ∷ []
unfolding itoa decimal
itoa_snoc n d h k = rw (
  digits_step (n * 10 + d) n d refl h k,
  digits-append (n * 10 + d) n [] ((b'0' + d) ∷ []),
  digits_enough (n * 10 + d) (suc n) n [] (omega arith) (omega arith),
)
