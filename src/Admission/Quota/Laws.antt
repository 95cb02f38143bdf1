-- ===== src/Admission/Quota/Laws.antt =====
-- What the quota admits, where no sum leaves the range of int64.
use nimbuscore.Prelude.{
  ℕ, ◌+◌, ◌*◌, ◌<◌, ◌≡◌, ap, ◌∙◌, Bool, not, ◌&&◌, ◌||◌, List, [], ◌∷◌, ℤ, pos, ◌+ℤ◌, ◌*ℤ◌, leb_ℤ,
  ltb_ℤ, add64, mul64, wrap_lem, half64, All, arith,
}
use nimbuscore.Api.{ResourceList, Container, Pod}
use nimbuscore.Cluster.{Cluster, pods, listed, list_prefix}
use nimbuscore.Cluster.Reads.{IsHealthy, list-up}
use nimbuscore.Admission.{Request}
use nimbuscore.Admission.Security.Laws.{is_ok}
use nimbuscore.Admission.Quota.{
  cpu_of, mem_of, add_requests, add_pods, exceeds, requested, within_quota, admit_quota,
}

add64-pos : (a b : ℕ) → a + b < half64 → add64 (pos a) (pos b) ≡ pos (a + b)
unfolding ◌+ℤ◌
add64-pos a b h = wrap_lem half64 (pos a +ℤ pos b) (ground arith, ground arith) ∙ ground arith

mul64-pos : (a b : ℕ) → a * b < half64 → mul64 (pos a) (pos b) ≡ pos (a * b)
unfolding ◌*ℤ◌
mul64-pos a b h = wrap_lem half64 (pos a *ℤ pos b) (ground arith, ground arith) ∙ ground arith

-- What a container asks for, by its exact amount: no request is negative.
abbrev pub IsRequest : (Container → ℤ) → (Container → ℕ) → Container → Type 0
IsRequest amount exact c = amount c ≡ pos (exact c)

module _ (amount : Container → ℤ) (exact : Container → ℕ) where
  abbrev pub sum_containers : List Container → ℕ
  sum_containers [] = 0
  sum_containers (c ∷ cs) = exact c + sum_containers cs

  abbrev pub sum_pods : List Pod → ℕ
  sum_pods [] = 0
  sum_pods (p ∷ ps) = sum_containers p.spec.containers + sum_pods ps

  abbrev pub ArePodRequests : List Pod → Type 0
  ArePodRequests = All (λ p. All (IsRequest amount exact) p.spec.containers)

  add_requests-pos :
      (u : ℕ) (cs : List Container)
      → All (IsRequest amount exact) cs
      → u + sum_containers cs < half64
      → add_requests amount (pos u) cs ≡ pos (u + sum_containers cs)
  unfolding add_requests
  add_requests-pos u [] h f = ground arith
  add_requests-pos u (c ∷ cs) h f =
      ap (λ a. add_requests amount (add64 (pos u) a) cs) h.0
      ∙ ap (λ a. add_requests amount a cs) (add64-pos u (exact c) (omega arith))
      ∙ add_requests-pos (u + exact c) cs h.1 (omega arith)
      ∙ ground arith

  add_pods-pos :
      (u : ℕ) (ps : List Pod)
      → ArePodRequests ps
      → u + sum_pods ps < half64
      → add_pods amount (pos u) ps ≡ pos (u + sum_pods ps)
  unfolding add_pods
  add_pods-pos u [] h f = ground arith
  add_pods-pos u (p ∷ ps) h f =
      ap (λ a. add_pods amount a ps) (add_requests-pos u p.spec.containers h.0 (omega arith))
      ∙ add_pods-pos (u + sum_containers p.spec.containers) ps h.1 (omega arith)
      ∙ ground arith

  -- All that is asked for, with n replicas, fits int64.
  abbrev pub Sums : List Pod → Request → ℕ → Type 0
  Sums existing req n =
      ArePodRequests existing
      × All (IsRequest amount exact) req.spec.containers
      × (sum_containers req.spec.containers < half64)
      × (sum_pods existing + sum_containers req.spec.containers * n < half64)

  abbrev pub within : ℤ → List Pod → Request → ℕ → Bool
  within limit existing req n =
      leb_ℤ limit (pos 0)
      || leb_ℤ (pos (sum_pods existing + sum_containers req.spec.containers * n)) limit

  requested-pos :
      (existing : List Pod) (req : Request) (n : ℕ)
      → req.replicas ≡ pos n
      → Sums existing req n
      → requested amount req ≡ pos (sum_containers req.spec.containers * n)
  unfolding requested
  requested-pos existing req n r (a, b, c, d) =
      ap (λ x. mul64 x req.replicas)
        (add_requests-pos 0 req.spec.containers b (omega arith) ∙ ground arith)
      ∙ ap (mul64 (pos (sum_containers req.spec.containers))) r
      ∙ mul64-pos (sum_containers req.spec.containers) n (omega arith)

  exceeds-pos :
      (limit : ℤ) (existing : List Pod) (req : Request) (n : ℕ)
      → req.replicas ≡ pos n
      → Sums existing req n
      → exceeds limit (add_pods amount (pos 0) existing) (requested amount req)
        ≡ not (within limit existing req n)
  exceeds-pos limit existing req n r (a, b, c, d) =
      let e =
        ap (λ x. add64 x (requested amount req))
          (add_pods-pos 0 existing a (omega arith) ∙ ground arith)
        ∙ ap (add64 (pos (sum_pods existing))) (requested-pos existing req n r (a, b, c, d))
        ∙ add64-pos (sum_pods existing) (sum_containers req.spec.containers * n) d in
      ap (λ x. ltb_ℤ (pos 0) limit && ltb_ℤ limit x) e ∙ ground arith

-- On a store that works, and as long as no request is negative and no sum leaves int64, a request
-- for n replicas is admitted exactly when, for CPU and for memory, the quota is not positive or the
-- pods of the namespace together with n times the template stay within it.
pub admit_quota_iff :
    (quota : ResourceList) (req : Request) (n : ℕ) (cpu mem : Container → ℕ) (s : Cluster)
    → IsHealthy s
    → req.replicas ≡ pos n
    → Sums cpu_of cpu (listed (list_prefix "pods" req.namespace) s.pods) req n
    → Sums mem_of mem (listed (list_prefix "pods" req.namespace) s.pods) req n
    → is_ok (admit_quota quota req s).0 ≡ (
        within cpu_of cpu quota.cpu_millis (listed (list_prefix "pods" req.namespace) s.pods) req n
        && within mem_of mem quota.memory_bytes
            (listed (list_prefix "pods" req.namespace) s.pods)
            req
            n)
unfolding admit_quota within_quota
admit_quota_iff quota req n cpu mem s h r c m = ground (
  arith,
  list-up pods req.namespace s h,
  exceeds-pos cpu_of cpu quota.cpu_millis (listed (list_prefix "pods" req.namespace) s.pods) req n r
      c,
  exceeds-pos mem_of mem quota.memory_bytes (listed (list_prefix "pods" req.namespace) s.pods) req n
      r m,
)
