-- ===== src/Controller/Deployment/Indices.antt =====
-- The loop that looks for free replica indices ends, and takes the right number of them.
use nimbuscore.Prelude.{
  ℕ, zero, suc, ◌+◌, ◌≤◌, ◌<◌, ◌≡◌, refl, ℤ, pos, eq_ℤ, leb_ℤ, true, false, List, [], ◌∷◌, length,
  any, All, ap, inl, inr, arith, Bool-cases, if◌then◌else◌,
}
use nimbuscore.Controller.Deployment.{free_indices}

-- How many indices in use are at least `i`.
count_from : ℕ → List ℤ → ℕ
count_from i [] = 0
count_from i (u ∷ us) = let rest = count_from i us in if leb_ℤ (pos i) u then suc rest else rest

count_from-le-length : (i : ℕ) (us : List ℤ) → count_from i us ≤ length us
unfolding count_from
count_from-le-length i [] = omega arith
count_from-le-length i (u ∷ us) = ground (arith, count_from-le-length i us)

count_from-suc : (i : ℕ) (us : List ℤ) → count_from (suc i) us ≤ count_from i us
unfolding count_from
count_from-suc i [] = omega arith
count_from-suc i (u ∷ us) = ground (arith, count_from-suc i us)

count_from_used :
    (i : ℕ) (us : List ℤ) → any (eq_ℤ (pos i)) us ≡ true → count_from (suc i) us < count_from i us
unfolding count_from
count_from_used i [] h = ground arith
count_from_used i (u ∷ us) h = ground (arith, count_from-suc i us, count_from_used i us)

length-free_indices_from :
    (fuel : ℕ) (used : List ℤ) (i k : ℕ)
    → count_from i used + k ≤ fuel
    → length (free_indices fuel used i k) ≡ k
unfolding free_indices
length-free_indices_from fuel used i zero h = refl
length-free_indices_from zero used i (suc k) h = absurd (omega arith)
length-free_indices_from (suc fuel) used i (suc k) h = elim (Bool-cases (any (eq_ℤ (pos i)) used)) [
  | inl e ↦
      rw e (
        length-free_indices_from fuel used (suc i) (suc k)
          (omega (arith, count_from_used i used e)))
  | inr e ↦
      rw e (
        ap suc
          (length-free_indices_from fuel used (suc i) k (omega (arith, count_from-suc i used))))
]

-- With as much fuel as there are indices in use and pods to create, the loop has found an index for
-- every pod to create.
pub length-free_indices :
    (used : List ℤ) (k : ℕ) → length (free_indices (length used + k) used 0 k) ≡ k
length-free_indices used k =
    length-free_indices_from (length used + k) used 0 k (omega (arith, count_from-le-length 0 used))

-- An index that the loop takes, from `i` on.
abbrev pub IsFreeFrom : ℕ → ℕ → List ℤ → ℕ → Type 0
IsFreeFrom i fuel used j = (i ≤ j) × (j < i + fuel) × (any (eq_ℤ (pos j)) used ≡ false)

IsFreeFrom-suc :
    (i fuel : ℕ) (used : List ℤ) (js : List ℕ)
    → All (IsFreeFrom (suc i) fuel used) js
    → All (IsFreeFrom i (suc fuel) used) js
IsFreeFrom-suc i fuel used [] a = tt
IsFreeFrom-suc i fuel used (j ∷ js) a =
    ((omega arith, omega arith, a.0.2), IsFreeFrom-suc i fuel used js a.1)

-- Each index that the loop takes is at least its start, within its fuel, and not in use.
pub free_indices-IsFreeFrom :
    (fuel : ℕ) (used : List ℤ) (i k : ℕ) → All (IsFreeFrom i fuel used) (free_indices fuel used i k)
unfolding free_indices
free_indices-IsFreeFrom fuel used i zero = tt
free_indices-IsFreeFrom zero used i (suc k) = tt
free_indices-IsFreeFrom (suc fuel) used i (suc k) = elim (Bool-cases (any (eq_ℤ (pos i)) used)) [
  | inl e ↦ rw e (IsFreeFrom-suc i fuel used _ (free_indices-IsFreeFrom fuel used (suc i) (suc k)))
  | inr e ↦ rw e (
    (omega arith, omega arith, e),
    IsFreeFrom-suc i fuel used _ (free_indices-IsFreeFrom fuel used (suc i) k),
  )
]

-- Every index behind another is greater.
abbrev pub IsIncreasing : List ℕ → Type 0
IsIncreasing [] = Unit
IsIncreasing (j ∷ js) = All (λ k. j < k) js × IsIncreasing js

greater_of_from :
    (i fuel : ℕ) (used : List ℤ) (js : List ℕ)
    → All (IsFreeFrom (suc i) fuel used) js
    → All (λ k. i < k) js
greater_of_from i fuel used [] a = tt
greater_of_from i fuel used (j ∷ js) a = (a.0.0, greater_of_from i fuel used js a.1)

-- The loop takes its indices in increasing order, so none of them twice.
pub free_indices-IsIncreasing :
    (fuel : ℕ) (used : List ℤ) (i k : ℕ) → IsIncreasing (free_indices fuel used i k)
unfolding free_indices
free_indices-IsIncreasing fuel used i zero = tt
free_indices-IsIncreasing zero used i (suc k) = tt
free_indices-IsIncreasing (suc fuel) used i (suc k) = elim (Bool-cases (any (eq_ℤ (pos i)) used)) [
  | inl e ↦ rw e (free_indices-IsIncreasing fuel used (suc i) (suc k))
  | inr e ↦ rw e (
    greater_of_from i fuel used _ (free_indices-IsFreeFrom fuel used (suc i) k),
    free_indices-IsIncreasing fuel used (suc i) k,
  )
]

-- With as much fuel as there are indices in use and pods to create, the loop finds an index for every
-- pod to create; each of them is below the fuel and not in use, and they are increasing, so that no
-- index is taken twice.
pub free_indices_complete :
    (used : List ℤ) (k : ℕ)
    → let js = free_indices (length used + k) used 0 k in
      (length js ≡ k) × All (IsFreeFrom 0 (length used + k) used) js × IsIncreasing js
free_indices_complete used k = (
  length-free_indices used k,
  free_indices-IsFreeFrom (length used + k) used 0 k,
  free_indices-IsIncreasing (length used + k) used 0 k,
)
