-- ===== src/Prelude/Texts/Cut.antt =====
-- `strings.Cut` at one character.
use Prim.Native.Nat.{ℕ, zero, suc, ◌/◌, ◌%◌}
use Prim.Native.Char.{code}
use Prim.Native.String.{String, ◌++◌}
use mathlib.Core.Path.{◌≡◌, ap, ◌∙◌}
use mathlib.Core.Logic.{inl, inr}
use mathlib.Core.Bool.{false}
use mathlib.Core.Option.{Option, none, some}
use native.Mathlib.Omega.{arith}
use text.Mathlib.TextLemmas.{cons-append, nil-append}
use nimbuscore.Prelude.Tests.{ltb, eqb, if◌then◌else◌, Bool-cases}
use nimbuscore.Prelude.Texts.{digits_to, digit, code-digit, itoa}

abbrev pub before_part : String → Option (String × String) → Option (String × String)
before_part d none = none
before_part d (some (a, b)) = some (d ++ a, b)

-- strings.Cut(s, "."): what stands before the first dot and behind it
unfoldable pub cut_dot : String → Option (String × String)
cut_dot String.[] = none
cut_dot (String.◌∷◌ d s) =
    let rest = before_part (String.◌∷◌ d "") (cut_dot s) in
    if eqb (code d) b'.' then some ("", s) else rest

abbrev pub LacksDot : String → Type 0
LacksDot String.[] = Unit
LacksDot (String.◌∷◌ d s) = (eqb (code d) b'.' ≡ false) × LacksDot s

-- A text without a dot is cut off again.
pub cut_dot-append : (t s : String) → LacksDot t → cut_dot (t ++ "." ++ s) ≡ some (t, s)
unfolding cut_dot
cut_dot-append String.[] s h =
    ap cut_dot (nil-append ("." ++ s) ∙ cons-append "." "" s ∙ ap (String.◌∷◌ ".") (nil-append s))
cut_dot-append (String.◌∷◌ d t) s h =
    ap cut_dot (cons-append d t ("." ++ s))
    ∙ rw (h.0, cut_dot-append t s h.1)
        (ap (λ (u : String). some (u, s)) (cons-append d "" t ∙ ap (String.◌∷◌ d) (nil-append t)))

digits_to-LacksDot : (f n : ℕ) (s : String) → LacksDot s → LacksDot (digits_to f n s)
unfolding digits_to
digits_to-LacksDot zero n s h = h
digits_to-LacksDot (suc f) n s h = elim (Bool-cases (ltb n 10)) [
  | inl e ↦ rw e (ground (arith, code-digit (n % 10)), h)
  | inr e ↦ rw e (
      digits_to-LacksDot f (n / 10) (String.◌∷◌ (digit (n % 10)) s)
        (ground (arith, code-digit (n % 10)), h))
]

-- No number is printed with a dot.
pub itoa-LacksDot : (n : ℕ) → LacksDot (itoa n)
unfolding itoa
itoa-LacksDot n = digits_to-LacksDot (suc n) n "" tt
