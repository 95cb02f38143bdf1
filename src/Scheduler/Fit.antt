-- ===== src/Scheduler/Fit.antt =====
-- What it means that a node fits a pod.
use nimbuscore.Prelude.{
  String, ℤ, pos, ◌+ℤ◌, ◌≤ℤ◌, ltb_ℤ, eq_ℤ, eq_ℤ_iff, sub64, half64, Fits, wrap_lem, +ℤ_parts,
  -ℤ_parts, parts_apart, ltb_ℤ-false, sym, ◌≡◌, ◌≢◌, ◌⊎◌, inl, inr, Bool-cases, leb_ℤ, true, false,
  List, [], ◌∷◌, Assoc, lookup_or, All, any, arith, ◌-ℤ◌,
}
use nimbuscore.Scheduler.{NodeCandidate, PodRequest, node_fits, accelerators_fit, ports_fit}

-- An amount that the code can hold, and that is not negative.
abbrev pub IsAmount : ℤ → Type 0
IsAmount a = (pos 0 ≤ℤ a) × Fits half64 a

-- On amounts the subtraction does not wrap.
pub sub64_lem : (a b : ℤ) → IsAmount a → IsAmount b → sub64 a b ≡ a -ℤ b
sub64_lem a b ha hb = wrap_lem half64 (a -ℤ b) (omega (arith, -ℤ_parts a b, parts_apart (a -ℤ b)))

-- The pod, placed beside what the node already runs, stays within the capacity.
abbrev pub Holds : ℤ → ℤ → ℤ → Type 0
Holds capacity used request = used +ℤ request ≤ℤ capacity

Holds-of_free :
    (capacity used request : ℤ)
    → IsAmount capacity
    → IsAmount used
    → ltb_ℤ (sub64 capacity used) request ≡ false
    → Holds capacity used request
Holds-of_free capacity used request hc hu h = omega (
  arith,
  rw (sub64_lem capacity used hc hu) at h,
  ltb_ℤ-false,
  -ℤ_parts capacity used,
  +ℤ_parts used request,
)

abbrev pub AreAmounts : NodeCandidate → String × ℤ → Type 0
AreAmounts n (name, want) =
    IsAmount (lookup_or (pos 0) name n.accelerator_capacity)
    × IsAmount (lookup_or (pos 0) name n.accelerator_used)

-- A request that is not positive asks for nothing.
abbrev pub AcceleratorHolds : NodeCandidate → String × ℤ → Type 0
AcceleratorHolds n (name, want) =
    (want ≤ℤ pos 0)
    ⊎ Holds (lookup_or (pos 0) name n.accelerator_capacity)
        (lookup_or (pos 0) name n.accelerator_used) want

accelerators_fit-Holds :
    (n : NodeCandidate) (requested : Assoc ℤ)
    → accelerators_fit requested n.accelerator_capacity n.accelerator_used ≡ true
    → All (AreAmounts n) requested
    → All (AcceleratorHolds n) requested
unfolding accelerators_fit
accelerators_fit-Holds n [] h a = tt
accelerators_fit-Holds n ((name, want) ∷ rest) h a = (
  elim (Bool-cases (leb_ℤ want (pos 0))) [
    | inl e ↦ inl (ground arith)
    | inr e ↦ inr (Holds-of_free _ _ want a.0.0 a.0.1 (ground arith))
  ],
  accelerators_fit-Holds n rest (ground arith) a.1,
)

abbrev pub IsFree : List ℤ → ℤ → Type 0
IsFree used port = All (λ p. p ≢ port) used

IsFree-of_any : (port : ℤ) (used : List ℤ) → any (eq_ℤ port) used ≡ false → IsFree used port
IsFree-of_any port [] h = tt
IsFree-of_any port (p ∷ used) h =
    (λ e. ground (arith, (eq_ℤ_iff port p).1 (sym e)), IsFree-of_any port used (ground arith))

ports_fit-IsFree :
    (requested used : List ℤ) → ports_fit requested used ≡ true → All (IsFree used) requested
unfolding ports_fit
ports_fit-IsFree [] used h = tt
ports_fit-IsFree (port ∷ rest) used h =
    (IsFree-of_any port used (ground arith), ports_fit-IsFree rest used (ground arith))

-- A node that fits can take the pod: where its amounts are not negative, the CPU, the memory and
-- each accelerator of which a positive count is requested stay within the capacity in exact
-- arithmetic, and no port that the pod wants is in use.
pub node_fits_sound :
    (pod : PodRequest) (n : NodeCandidate)
    → node_fits pod n ≡ true
    → IsAmount n.cpu_capacity
    → IsAmount n.cpu_used
    → IsAmount n.mem_capacity
    → IsAmount n.mem_used
    → All (AreAmounts n) pod.accelerators_requested
    → Holds n.cpu_capacity n.cpu_used pod.cpu_request
      × Holds n.mem_capacity n.mem_used pod.mem_request
      × All (AcceleratorHolds n) pod.accelerators_requested
      × All (IsFree n.used_ports) pod.container_ports
unfolding node_fits
node_fits_sound pod n h cc cu mc mu am = (
  Holds-of_free _ _ _ cc cu (ground arith),
  Holds-of_free _ _ _ mc mu (ground arith),
  accelerators_fit-Holds n _ (ground arith) am,
  ports_fit-IsFree _ n.used_ports (ground arith),
)
