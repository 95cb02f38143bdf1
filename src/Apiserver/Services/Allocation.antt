-- ===== src/Apiserver/Services/Allocation.antt =====
-- The port that the allocation finds.
use nimbuscore.Prelude.{
  ℕ, zero, suc, ◌+◌, ◌≤◌, ◌<◌, ◌≡◌, refl, subst, sym, inl, inr, Bool, true, false, List, Option,
  none, some, any, ℤ, pos, arith, Bool-cases, leb,
}
use nimbuscore.Api.{Service}
use nimbuscore.Apiserver.Services.{node_port_range_min, node_port_count, has_port, first_free}

abbrev pub is_taken : List Service → ℕ → Bool
is_taken all n = any (has_port (pos n)) all

-- The first port from `port` on, among `left` ones, that no service has; or that there is none.
abbrev pub IsFirstFree : ℕ → ℕ → List Service → Option ℤ → Type 0
IsFirstFree left port all none = (n : ℕ) → port ≤ n → n < port + left → is_taken all n ≡ true
IsFirstFree left port all (some p) =
    (n : ℕ) × (p ≡ pos n)
    × (port ≤ n)
    × (n < port + left)
    × (is_taken all n ≡ false)
    × ((k : ℕ) → port ≤ k → k < n → is_taken all k ≡ true)

from_next :
    (left port : ℕ) (all : List Service) (o : Option ℤ)
    → is_taken all port ≡ true
    → IsFirstFree left (suc port) all o
    → IsFirstFree (suc left) port all o
from_next left port all none t h = λ n a b. elim (Bool-cases (leb (suc port) n)) [
  | inl l ↦ h n (ground arith) (omega arith)
  | inr l ↦ subst (λ k. is_taken all k ≡ true) {x = port} {y = n} (ground arith) t
]
from_next left port all (some p) t (n, e, a, b, f, k) = (
  n,
  e,
  omega arith,
  omega arith,
  f,
  λ j c d. elim (Bool-cases (leb (suc port) j)) [
    | inl l ↦ k j (ground arith) d
    | inr l ↦ subst (λ i. is_taken all i ≡ true) {x = port} {y = j} (ground arith) t
  ],
)

first_free-suc :
    (left port : ℕ) (all : List Service)
    → (is_taken all port ≡ true → first_free (suc left) port all ≡ first_free left (suc port) all)
      × (is_taken all port ≡ false → first_free (suc left) port all ≡ some (pos port))
unfolding first_free
first_free-suc left port all = (λ h. rw h, λ h. rw h)

pub first_free-IsFirstFree :
    (left port : ℕ) (all : List Service) → IsFirstFree left port all (first_free left port all)
unfolding first_free
first_free-IsFirstFree zero port all = λ n a b. absurd (omega arith)
first_free-IsFirstFree (suc left) port all = elim (Bool-cases (is_taken all port)) [
  | inl t ↦
      subst (IsFirstFree (suc left) port all) (sym ((first_free-suc left port all).0 t))
        (from_next left port all _ t (first_free-IsFirstFree left (suc port) all))
  | inr t ↦
      subst (IsFirstFree (suc left) port all) (sym ((first_free-suc left port all).1 t))
        (port, refl, omega arith, omega arith, t, λ k a b. absurd (omega arith))
]

-- The allocation takes the lowest port from 30000 to 32767 that no service has, and fails only when
-- each of them is taken.
pub allocation-IsFirstFree :
    (all : List Service)
    → IsFirstFree node_port_count node_port_range_min all
        (first_free node_port_count node_port_range_min all)
allocation-IsFirstFree all = first_free-IsFirstFree node_port_count node_port_range_min all
