-- ===== src/Prelude/Lists.antt =====
-- Lists measured by native numbers, and the Boolean searches that the program writes as loops.
use Prim.Native.Nat.{ℕ, zero, suc, ◌+◌, ◌≤◌}
use mathlib.Core.Path.{◌≡◌, refl, subst}
use mathlib.Core.Logic.{◌⊎◌, inl, inr, ◌↔◌}
use mathlib.Core.Bool.{Bool, true, false, ◌&&◌, ◌||◌}
use mathlib.Core.List.{List, [], ◌∷◌, ◌++◌}
use native.Mathlib.Omega.{arith}
use nimbuscore.Prelude.Tests.{if◌then◌else◌, Bool-cases, &&_iff_of}

module _ {ℓ} {A : Type ℓ} where
  abbrev pub length : List A → ℕ
  length [] = 0
  length (x ∷ xs) = suc (length xs)

  pub length-append : (xs ys : List A) → length (xs ++ ys) ≡ length xs + length ys
  length-append [] ys = omega arith
  length-append (x ∷ xs) ys = omega (arith, length-append xs ys)

  -- A loop that returns true at the first element that passes.
  abbrev pub any : (A → Bool) → List A → Bool
  any p [] = false
  any p (x ∷ xs) = p x || any p xs

  -- A loop that returns false at the first element that fails.
  abbrev pub all : (A → Bool) → List A → Bool
  all p [] = true
  all p (x ∷ xs) = p x && all p xs

  -- The elements that a loop keeps, in order.
  abbrev pub keep : (A → Bool) → List A → List A
  keep p [] = []
  keep p (x ∷ xs) = let rest = keep p xs in if p x then x ∷ rest else rest

  abbrev pub is_empty : List A → Bool
  is_empty [] = true
  is_empty (x ∷ xs) = false

  abbrev pub drop : ℕ → List A → List A
  drop zero xs = xs
  drop (suc n) [] = []
  drop (suc n) (x ∷ xs) = drop n xs

  -- Membership and quantifiers by recursion, which tactics read.
  abbrev pub All {κ} : (A → Type κ) → List A → Type κ
  All P [] = Unit
  All P (x ∷ xs) = P x × All P xs

  pub data Has {κ} (P : A → Type κ) : List A → Type (ℓ ⊔ κ) where
    here : {x : A} {xs : List A} → P x → Has P (x ∷ xs)
    there : {x : A} {xs : List A} → Has P xs → Has P (x ∷ xs)

  abbrev pub In : A → List A → Type ℓ
  In a = Has (λ x. x ≡ a)

module _ {ℓ} {A : Type ℓ} (p : A → Bool) where
  pub any-Has : (xs : List A) → any p xs ≡ true → Has (λ x. p x ≡ true) xs
  any-Has [] h = ground arith
  any-Has (x ∷ xs) h = elim (Bool-cases (p x)) [
    | inl e ↦ here e
    | inr e ↦ there (any-Has xs (ground arith))
  ]

  pub Has-any : {xs : List A} → Has (λ x. p x ≡ true) xs → any p xs ≡ true
  Has-any (here e) = ground arith
  Has-any (there h) = ground (arith, Has-any h)

  pub all-All : (xs : List A) → all p xs ≡ true → All (λ x. p x ≡ true) xs
  all-All [] h = tt
  all-All (x ∷ xs) h = (ground arith, all-All xs (ground arith))

  pub All-all : (xs : List A) → All (λ x. p x ≡ true) xs → all p xs ≡ true
  All-all [] h = refl
  All-all (x ∷ xs) h = ground (arith, All-all xs h.1)

  pub keep-All : (xs : List A) → All (λ x. p x ≡ true) (keep p xs)
  keep-All [] = tt
  keep-All (x ∷ xs) = ground (arith, keep-All xs)

  pub length-keep-le : (xs : List A) → length (keep p xs) ≤ length xs
  length-keep-le [] = omega arith
  length-keep-le (x ∷ xs) = ground (arith, length-keep-le xs)

module _ {ℓ κ} {A : Type ℓ} (P : A → Type κ) where
  pub All-In : {a : A} {xs : List A} → All P xs → In a xs → P a
  All-In h (here e) = subst P e h.0
  All-In h (there m) = All-In h.1 m

  pub All-append : (xs ys : List A) → All P xs → All P ys → All P (xs ++ ys)
  All-append [] ys hx hy = hy
  All-append (x ∷ xs) ys hx hy = (hx.0, All-append xs ys hx.1 hy)

  pub All-intro : (xs : List A) → ((a : A) → In a xs → P a) → All P xs
  All-intro [] f = tt
  All-intro (x ∷ xs) f = (f x (here refl), All-intro xs (λ a m. f a (there m)))

module _ {ℓ} {A : Type ℓ} where
  pub In-append_left : {a : A} {xs : List A} (ys : List A) → In a xs → In a (xs ++ ys)
  In-append_left ys (here e) = here e
  In-append_left ys (there m) = there (In-append_left ys m)

  pub In-append_right : {a : A} (xs : List A) {ys : List A} → In a ys → In a (xs ++ ys)
  In-append_right [] m = m
  In-append_right (x ∷ xs) m = there (In-append_right xs m)

  pub In-append : {a : A} (xs : List A) {ys : List A} → In a (xs ++ ys) → In a xs ⊎ In a ys
  In-append [] m = inr m
  In-append (x ∷ xs) (here e) = inl (here e)
  In-append (x ∷ xs) (there m) = elim (In-append xs m) [ inl l ↦ inl (there l) | inr r ↦ inr r ]

  keep-true : (p : A → Bool) (x : A) (xs : List A) → p x ≡ true → keep p (x ∷ xs) ≡ x ∷ keep p xs
  keep-true p x xs h = rw h

  keep-false : (p : A → Bool) (x : A) (xs : List A) → p x ≡ false → keep p (x ∷ xs) ≡ keep p xs
  keep-false p x xs h = rw h

  pub In-keep : {a : A} (p : A → Bool) {xs : List A} → In a xs → p a ≡ true → In a (keep p xs)
  In-keep p (here {x = x} {xs = xs} e) h = rw (keep-true p x xs (rw e h)) (here e)
  In-keep p (there {x = x} {xs = xs} m) h = elim (Bool-cases (p x)) [
    | inl e ↦ rw (keep-true p x xs e) (there (In-keep p m h))
    | inr e ↦ rw (keep-false p x xs e) (In-keep p m h)
  ]

  pub In-of_keep : {a : A} (p : A → Bool) (xs : List A) → In a (keep p xs) → In a xs × (p a ≡ true)
  In-of_keep p [] m = elim m [ ]
  In-of_keep {a = a} p (x ∷ xs) m = elim (Bool-cases (p x)) [
    | inl e ↦ kept (In-of_keep p xs) e (rw (keep-true p x xs e) at m)
    | inr e ↦ let ih = In-of_keep p xs (rw (keep-false p x xs e) at m) in (there ih.0, ih.1)
  ]
    where
      kept :
          (In a (keep p xs) → In a xs × (p a ≡ true))
          → p x ≡ true
          → In a (x ∷ keep p xs)
          → In a (x ∷ xs) × (p a ≡ true)
      kept ih e (here q) = (here q, rw (← q) e)
      kept ih e (there n) = (there (ih n).0, (ih n).1)

-- A loop that decides a property of each element decides that one has it, or that all do.
module _ {ℓ κ} {A : Type ℓ} (p : A → Bool) (P : A → Type κ) (f : (a : A) → (p a ≡ true) ↔ P a) where
  pub any_iff : (xs : List A) → (any p xs ≡ true) ↔ Has P xs
  any_iff xs = (λ h. forth (any-Has p xs h), λ h. Has-any p (back h))
    where
      forth : {ys : List A} → Has (λ x. p x ≡ true) ys → Has P ys
      forth (here {x = x} e) = here ((f x).0 e)
      forth (there m) = there (forth m)

      back : {ys : List A} → Has P ys → Has (λ x. p x ≡ true) ys
      back (here {x = x} e) = here ((f x).1 e)
      back (there m) = there (back m)

  pub all_iff : (xs : List A) → (all p xs ≡ true) ↔ All P xs
  all_iff [] = (λ h. tt, λ h. refl)
  all_iff (x ∷ xs) = &&_iff_of (f x) (all_iff xs)

pub is_empty_iff {ℓ} : {A : Type ℓ} (xs : List A) → (is_empty xs ≡ true) ↔ (xs ≡ [])
is_empty_iff [] = (λ h. refl, λ h. refl)
is_empty_iff (x ∷ xs) = (λ h. ground arith, λ h. cc)
