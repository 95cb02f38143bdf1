-- ===== src/Prelude/Texts.antt =====
-- What the program uses of Go's `strings` and `strconv`, over the native texts.
pub mod Cut
use Prim.Native.Nat.{ℕ, zero, suc, ◌+◌, ◌-◌, ◌*◌, ◌/◌, ◌%◌, ◌<◌}
use Prim.Native.Char.{Char, code}
use Prim.Native.String.{String, ◌++◌}
use mathlib.Core.Path.{◌≡◌, refl, ap, subst, ◌∙◌}
use mathlib.Core.Logic.{inl, inr}
use mathlib.Core.Bool.{Bool, true, false, ◌&&◌}
use mathlib.Core.Option.{Option, none, some}
use native.Mathlib.Omega.{arith}
use text.Mathlib.TextEquality.{Char-path}
use text.Mathlib.TextLemmas.{cons-append, nil-append}
use nimbuscore.Prelude.Tests.{ltb, leb, eqb, if◌then◌else◌, Bool-cases, eqb→eq}
use nimbuscore.Prelude.Int.{ℤ, pos, negsuc, half64}

-- The rest of the second text behind the first, if it begins with the first.
unfoldable pub strip : String → String → Option String
strip String.[] s = some s
strip (String.◌∷◌ c p) String.[] = none
strip (String.◌∷◌ c p) (String.◌∷◌ d s) =
    let rest = strip p s in if eqb (code c) (code d) then rest else none

-- strings.HasPrefix(s, p)
unfoldable pub has_prefix : String → String → Bool
has_prefix s p = elim (strip p s) [ none ↦ false | some _ ↦ true ]

-- strings.TrimPrefix(s, p)
unfoldable pub trim_prefix : String → String → String
trim_prefix s p = elim (strip p s) [ none ↦ s | some r ↦ r ]

code_refl : (c : Char) → eqb (code c) (code c) ≡ true
code_refl c = ground arith

pub strip-append : (p s : String) → strip p (p ++ s) ≡ some s
unfolding strip
strip-append String.[] s = ap some (nil-append s)
strip-append (String.◌∷◌ c p) s = rw (cons-append c p s) (ground (arith, strip-append p s))

pub strip_inv : (p s : String) {r : String} → strip p s ≡ some r → s ≡ p ++ r
unfolding strip
strip_inv String.[] s {r = r} h = cc (nil-append r)
strip_inv (String.◌∷◌ c p) String.[] h = ground arith
strip_inv (String.◌∷◌ c p) (String.◌∷◌ d s) {r = r} h = elim (Bool-cases (eqb (code c) (code d))) [
  | inl e ↦
      cc (cons-append c p r, Char-path c d (eqb→eq _ _ e), strip_inv p s {r = r} (ground arith))
  | inr e ↦ ground arith
]

-- The two texts differ at some place, so neither begins the other.
unfoldable pub diverge : String → String → Bool
diverge String.[] q = false
diverge (String.◌∷◌ c p) String.[] = false
diverge (String.◌∷◌ c p) (String.◌∷◌ d q) =
    let rest = diverge p q in if eqb (code c) (code d) then rest else true

pub has_prefix-diverge :
    (p q s : String) → diverge p q ≡ true → has_prefix s p ≡ true → has_prefix s q ≡ false
unfolding diverge has_prefix strip
has_prefix-diverge String.[] q s h e = ground arith
has_prefix-diverge (String.◌∷◌ c p) String.[] s h e = ground arith
has_prefix-diverge (String.◌∷◌ c p) (String.◌∷◌ d q) String.[] h e = ground arith
has_prefix-diverge (String.◌∷◌ c p) (String.◌∷◌ d q) (String.◌∷◌ a s) h e =
    ground (arith, has_prefix-diverge p q s)

-- The decimal digit of a number below ten.
digit : ℕ → Char
digit zero = "0"
digit (suc zero) = "1"
digit (suc (suc zero)) = "2"
digit (suc (suc (suc zero))) = "3"
digit (suc (suc (suc (suc zero)))) = "4"
digit (suc (suc (suc (suc (suc zero))))) = "5"
digit (suc (suc (suc (suc (suc (suc zero)))))) = "6"
digit (suc (suc (suc (suc (suc (suc (suc zero))))))) = "7"
digit (suc (suc (suc (suc (suc (suc (suc (suc zero)))))))) = "8"
digit _ = "9"

code-digit : (d : ℕ) → d < 10 → code (digit d) ≡ 48 + d
unfolding digit
code-digit zero h = refl
code-digit (suc zero) h = refl
code-digit (suc (suc zero)) h = refl
code-digit (suc (suc (suc zero))) h = refl
code-digit (suc (suc (suc (suc zero)))) h = refl
code-digit (suc (suc (suc (suc (suc zero))))) h = refl
code-digit (suc (suc (suc (suc (suc (suc zero)))))) h = refl
code-digit (suc (suc (suc (suc (suc (suc (suc zero))))))) h = refl
code-digit (suc (suc (suc (suc (suc (suc (suc (suc zero)))))))) h = refl
code-digit (suc (suc (suc (suc (suc (suc (suc (suc (suc zero))))))))) h = refl
code-digit (suc (suc (suc (suc (suc (suc (suc (suc (suc (suc n)))))))))) h = absurd (omega arith)

digits_to : ℕ → ℕ → String → String
digits_to zero n s = s
digits_to (suc f) n s =
    let rest = digits_to f (n / 10) (String.◌∷◌ (digit (n % 10)) s) in
    if ltb n 10 then String.◌∷◌ (digit (n % 10)) s else rest

-- strconv.Itoa and the verb %d, at a number that is not negative.
unfoldable pub itoa : ℕ → String
unfolding digits_to digit
itoa n = digits_to (suc n) n ""

parse_digits : ℕ → String → Option ℕ
parse_digits n String.[] = some n
parse_digits n (String.◌∷◌ c s) =
    let rest = parse_digits (n * 10 + (code c - 48)) s in
    if leb 48 (code c) && leb (code c) 57 then rest else none

parse_magnitude : String → Option ℕ
parse_magnitude String.[] = none
parse_magnitude (String.◌∷◌ c s) = parse_digits 0 (String.◌∷◌ c s)

in_range : Bool → Option ℕ → Option ℤ
in_range minus none = none
in_range true (some zero) = some (pos 0)
in_range true (some (suc n)) = if ltb n half64 then some (negsuc n) else none
in_range false (some n) = if ltb n half64 then some (pos n) else none

-- strconv.Atoi: an optional sign, at least one digit, and a value of int.
unfoldable pub atoi : String → Option ℤ
unfolding parse_digits parse_magnitude in_range
atoi String.[] = none
atoi (String.◌∷◌ c s) =
    if eqb (code c) b'-'
    then in_range true (parse_magnitude s)
    else if eqb (code c) b'+'
    then in_range false (parse_magnitude s)
    else in_range false (parse_magnitude (String.◌∷◌ c s))

parse-digits_to :
    (f n : ℕ) (s : String) → n < f → parse_digits 0 (digits_to f n s) ≡ parse_digits n s
unfolding digits_to parse_digits
parse-digits_to zero n s h = elim h [ ]
parse-digits_to (suc f) n s h =
    ground (arith, code-digit (n % 10), parse-digits_to f (n / 10) (String.◌∷◌ (digit (n % 10)) s))

-- Printing begins with a digit.
StartsDigit : String → Type 0
StartsDigit s = (d : ℕ) × (r : String) × (d < 10) × (s ≡ String.◌∷◌ (digit d) r)

digits_to-StartsDigit : (f n : ℕ) (s : String) → n < f → StartsDigit (digits_to f n s)
unfolding digits_to StartsDigit
digits_to-StartsDigit zero n s h = elim h [ ]
digits_to-StartsDigit (suc f) n s h = elim (Bool-cases (ltb n 10)) [
  | inl e ↦ rw e (n % 10, s, omega arith, refl)
  | inr e ↦ rw e (digits_to-StartsDigit f (n / 10) (String.◌∷◌ (digit (n % 10)) s) (ground arith))
]

atoi_of_digits :
    (d n : ℕ) (r : String)
    → d < 10
    → n < half64
    → parse_digits 0 (String.◌∷◌ (digit d) r) ≡ some n
    → atoi (String.◌∷◌ (digit d) r) ≡ some (pos n)
unfolding atoi
atoi_of_digits d n r hd hn e = ground (arith, code-digit d)

atoi_of_StartsDigit :
    (n : ℕ) (s : String)
    → n < half64
    → StartsDigit s
    → parse_digits 0 s ≡ some n
    → atoi s ≡ some (pos n)
unfolding StartsDigit
atoi_of_StartsDigit n s h (d, r, small, e) p =
    rw e (atoi_of_digits d n r small h (subst (λ t. parse_digits 0 t ≡ some n) e p))

-- Parsing what was printed gives the number back.
pub atoi-itoa : (n : ℕ) → n < half64 → atoi (itoa n) ≡ some (pos n)
unfolding itoa
atoi-itoa n h =
    atoi_of_StartsDigit n (digits_to (suc n) n "") h
      (digits_to-StartsDigit (suc n) n "" (omega arith))
      (parse-digits_to (suc n) n "" (omega arith) ∙ unfold parse_digits in refl)

itoa_runs : itoa 30042 ≡ "30042"
unfolding itoa
itoa_runs = refl

atoi_runs : atoi "-17" ≡ some (negsuc 16)
unfolding atoi
atoi_runs = refl
