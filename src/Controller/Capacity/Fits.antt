-- ===== src/Controller/Capacity/Fits.antt =====
-- The replicas that the autoscaler adds have room.
use native.Mathlib.Nat.{le-div_iff_mul-le}
use nimbuscore.Prelude.{
  ℕ, ◌+◌, ◌*◌, ◌/◌, ◌≤◌, ◌<◌, ◌≡◌, ◌∙◌, subst, inl, inr, ℤ, pos, ◌≤ℤ◌, ◌-◌, leb, ◌+ℤ◌, ◌-ℤ◌, sub32,
  add32, wrap_lem, half32, [], ◌∷◌, Assoc, arith, Bool-cases, sub64,
}
use nimbuscore.Controller.Capacity.{
  ClusterCapacity, max_int32, fit_count, smaller, room_for, least_accelerator,
  max_additional_replicas, capped,
}

fit_count-le :
    (remaining per n : ℕ)
    → 0 < per
    → pos n ≤ℤ fit_count (pos remaining) (pos per)
    → n ≤ remaining / per
unfolding fit_count
fit_count-le remaining per n p h = ground arith

fit_count-Fits :
    (remaining per n : ℕ)
    → 0 < per
    → pos n ≤ℤ fit_count (pos remaining) (pos per)
    → n * per ≤ remaining
fit_count-Fits remaining per n p h = (le-div_iff_mul-le p).0 (fit_count-le remaining per n p h)

smaller-le : (a b : ℤ) → (smaller a b ≤ℤ a) × (smaller a b ≤ℤ b)
smaller-le a b = (ground arith, ground arith)

le_trans : (a b c : ℤ) → a ≤ℤ b → b ≤ℤ c → a ≤ℤ c
le_trans a b c h k = omega arith

least_accelerator-le :
    (c : ClusterCapacity) (least : ℤ) (rest : Assoc ℤ) → least_accelerator c least rest ≤ℤ least
unfolding least_accelerator
least_accelerator-le c least [] = omega arith
least_accelerator-le c least ((name, per) ∷ rest) =
    let next = smaller (room_for c name per) least in
    le_trans (least_accelerator c next rest) next least (least_accelerator-le c next rest)
      (smaller-le (room_for c name per) least).1

-- What is left of one kind of resource.
abbrev pub Remains : ℤ → ℤ → ℕ → Type 0
Remains capacity used remaining = sub64 capacity used ≡ pos remaining

-- Where a replica asks for a positive amount of CPU and of memory, and neither is overcommitted, as
-- many more replicas as the limit, or fewer, ask for no more than what remains.
pub max_additional_replicas-Fits :
    (c : ClusterCapacity) (cpu mem cpu_left mem_left : ℕ) (accelerators : Assoc ℤ) (n : ℕ)
    → 0 < cpu
    → 0 < mem
    → Remains c.cpu_capacity c.cpu_used cpu_left
    → Remains c.mem_capacity c.mem_used mem_left
    → pos n ≤ℤ max_additional_replicas c (pos cpu) (pos mem) accelerators
    → (n * cpu ≤ cpu_left) × (n * mem ≤ mem_left)
unfolding max_additional_replicas
max_additional_replicas-Fits c cpu mem cpu_left mem_left accelerators n p q rc rm h =
    let fm = fit_count (sub64 c.mem_capacity c.mem_used) (pos mem) in
    let fc = fit_count (sub64 c.cpu_capacity c.cpu_used) (pos cpu) in
    let inner = smaller fc (pos max_int32) in
    let outer = smaller fm inner in
    let least =
      le_trans (pos n) (least_accelerator c outer accelerators) outer h
        (least_accelerator-le c outer accelerators) in
    let by_mem = le_trans (pos n) outer fm least (smaller-le fm inner).0 in
    let by_inner = le_trans (pos n) outer inner least (smaller-le fm inner).1 in
    let by_cpu = le_trans (pos n) inner fc by_inner (smaller-le fc (pos max_int32)).0 in
    (
      fit_count-Fits cpu_left cpu n p (subst (λ r. pos n ≤ℤ fit_count r (pos cpu)) rc by_cpu),
      fit_count-Fits mem_left mem n q (subst (λ r. pos n ≤ℤ fit_count r (pos mem)) rm by_mem),
    )

sub32-pos : (a b : ℕ) → b ≤ a → a < half32 → sub32 (pos a) (pos b) ≡ pos (a - b)
unfolding ◌-ℤ◌
sub32-pos a b h f = wrap_lem half32 (pos a -ℤ pos b) (ground arith, ground arith) ∙ ground arith

add32-pos : (a b : ℕ) → a + b < half32 → add32 (pos a) (pos b) ≡ pos (a + b)
unfolding ◌+ℤ◌
add32-pos a b f = wrap_lem half32 (pos a +ℤ pos b) (ground arith, ground arith) ∙ ground arith

-- Between counts of int32 the cap gives a count from the current one to the desired one, at most as
-- many above the current one as the capacity allows, and the rest as the shortfall.
pub capped_bounds :
    (limit current desired : ℕ)
    → current ≤ desired
    → desired < half32
    → (n : ℕ) × (capped (pos limit) (pos current) (pos desired) ≡ (pos n, pos (desired - n)))
      × (current ≤ n)
      × (n ≤ desired)
      × (n ≤ current + limit)
unfolding capped
capped_bounds limit current desired h f = elim (Bool-cases (leb (desired - current) limit)) [
  | inl e ↦ (desired, ground (arith, sub32-pos desired current h f), h, omega arith, ground arith)
  | inr e ↦ (
    current + limit,
    ground (
      arith,
      sub32-pos desired current h f,
      add32-pos current limit (ground arith),
      sub32-pos desired (current + limit) (ground arith) f,
    ),
    omega arith,
    ground arith,
    omega arith,
  )
]
