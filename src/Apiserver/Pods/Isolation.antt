-- ===== src/Apiserver/Pods/Isolation.antt =====
-- A node writes the status of its own pods only.
use Prim.Native.String.{◌++◌}
use nimbuscore.Prelude.{
  ◌≡◌, ◌≢◌, refl, sym, ap, ◌∙◌, subst, inl, inr, ◌⊎◌, String, true, false, Option, none, some,
  lookup, insert, lookup-insert, has_prefix, trim_prefix, strip-append, arith, Bool-cases, eq_iff,
  ◌==◌,
}
use nimbuscore.Api.{Pod, PodStatus}
use nimbuscore.Cluster.{Cluster, Result, ok, err, pure, resume, found, pods, get, put, key}
use nimbuscore.Cluster.Keys.{has_prefix-append}
use nimbuscore.Cluster.Reads.{get-state}
use nimbuscore.Cluster.Results.{err_ok, ok_injective}
use nimbuscore.Apiserver.Auth.{SpiffeId}
use nimbuscore.Apiserver.Codes.{not_there, internal, recoded}
use nimbuscore.Apiserver.Pods.{is_foreign, with_status, updated, update_pod_status}

-- The pod stands on a node other than this one.
abbrev pub StandsElsewhere : String → Pod → Type 0
StandsElsewhere node_name p = (p.spec.node_name ≢ "") × (p.spec.node_name ≢ node_name)

ne_false : (x y : String) → x ≢ y → (x == y) ≡ false
ne_false x y h = elim (Bool-cases (x == y)) [ inl e ↦ absurd (h ((eq_iff x y).0 e)) | inr e ↦ e ]

trim_prefix-append : (q r : String) → trim_prefix (q ++ r) q ≡ r
unfolding trim_prefix
trim_prefix-append q r =
    ap (λ o. elim o as (λ x. String) [ none ↦ q ++ r | some x ↦ x ]) (strip-append q r)

foreign_at :
    (id : SpiffeId) (node_name : String) (p : Pod)
    → has_prefix id.path "/node/" ≡ true
    → trim_prefix id.path "/node/" ≡ node_name
    → StandsElsewhere node_name p
    → is_foreign (some id) p ≡ true
foreign_at id node_name p h t (a, b) = ground (
  arith,
  h,
  ne_false p.spec.node_name "" a,
  ne_false p.spec.node_name (trim_prefix id.path "/node/")
      (subst (λ x. p.spec.node_name ≢ x) (sym t) b),
)

foreign :
    (trust_domain node_name : String) (p : Pod)
    → StandsElsewhere node_name p
    → is_foreign (some (record { trust_domain = trust_domain; path = "/node/" ++ node_name })) p
      ≡ true
foreign trust_domain node_name p e =
    foreign_at (record { trust_domain = trust_domain; path = "/node/" ++ node_name }) node_name p
      (has_prefix-append "/node/" node_name) (trim_prefix-append "/node/" node_name) e

put-pods :
    (namespace name : String) (x : Pod) (t : Cluster)
    → ((put pods namespace name x t).1.pods ≡ t.pods)
      ⊎ ((put pods namespace name x t).1.pods ≡ insert (key "pods" namespace name) x t.pods)
unfolding put
put-pods namespace name x t = ground arith

found-some : {q : Pod} (o : Option Pod) → found o ≡ ok q → o ≡ some q
found-some none h = absurd (err_ok h)
found-some (some x) h = ap some (ok_injective h)

get-found :
    (namespace name : String) (q : Pod) (s : Cluster)
    → (get pods namespace name s).0 ≡ ok q
    → lookup (key "pods" namespace name) s.pods ≡ some q
unfolding get
get-found namespace name q s h = elim (Bool-cases (s.fails s.operations)) [
  | inl e ↦ absurd (err_ok (rw e at h))
  | inr e ↦ found-some (lookup (key "pods" namespace name) s.pods) (rw e at h)
]

some_injective : {a b : Pod} → some a ≡ some b → a ≡ b
some_injective h = cc

true-false : true ≢ false
true-false h = ground arith

module _ (caller : Option SpiffeId) (namespace name : String) (status : PodStatus) (j : String)
    (p : Pod) where
  written :
      (q : Pod) (t : Cluster)
      → is_foreign caller p ≡ true
      → is_foreign caller q ≡ false
      → lookup (key "pods" namespace name) t.pods ≡ some q
      → lookup j t.pods ≡ some p
      → lookup j (put pods namespace name (with_status q status) t).1.pods ≡ some p
  written q t f g k l = elim (put-pods namespace name (with_status q status) t) [
    | inl e ↦ ap (lookup j) e ∙ l
    | inr e ↦
        ap (lookup j) e
        ∙ lookup-insert (key "pods" namespace name) j (with_status q status) t.pods
        ∙ elim (Bool-cases (key "pods" namespace name == j)) [
          | inl w ↦ absurd (
              true-false (
                sym f
                ∙ ap (is_foreign caller) (
                    some_injective (sym l ∙ sym (ap (λ i. lookup i t.pods) ((eq_iff _ j).0 w)) ∙ k))
                ∙ g))
          | inr w ↦ rw w l
        ]
  ]

  answered :
      (q : Pod) (r : Result (Unit {0})) (t : Cluster)
      → (resume (recoded internal r) (λ _. pure (with_status q status)) t).1 ≡ t
  answered q (ok a) t = refl
  answered q (err e) t = refl

  updated-kept :
      (q : Pod) (t : Cluster)
      → is_foreign caller p ≡ true
      → lookup (key "pods" namespace name) t.pods ≡ some q
      → lookup j t.pods ≡ some p
      → lookup j (updated caller namespace name status q t).1.pods ≡ some p
  updated-kept q t f k l = elim (Bool-cases (is_foreign caller q)) [
    | inl e ↦ rw e l
    | inr e ↦ rw e (
        ap (λ u. lookup j u.pods)
          (answered q (put pods namespace name (with_status q status) t).0
            (put pods namespace name (with_status q status) t).1)
        ∙ written q t f e k l)
  ]

  resumed-kept :
      (r : Result Pod) (t : Cluster)
      → is_foreign caller p ≡ true
      → ((q : Pod) → r ≡ ok q → lookup (key "pods" namespace name) t.pods ≡ some q)
      → lookup j t.pods ≡ some p
      → lookup j (resume (recoded not_there r) (updated caller namespace name status) t).1.pods
        ≡ some p
  resumed-kept (ok q) t f k l = updated-kept q t f (k q refl) l
  resumed-kept (err e) t f k l = l

-- Whatever a node asks for, and whether the store fails or not, a pod that stands on another node is
-- stored as before.
pub update_pod_status-isolated :
    (trust_domain node_name namespace name : String) (status : PodStatus) (s : Cluster) (j : String)
    (p : Pod)
    → lookup j s.pods ≡ some p
    → StandsElsewhere node_name p
    → lookup j
        (update_pod_status
          (some (record { trust_domain = trust_domain; path = "/node/" ++ node_name }))
          namespace
          name
          status
          s).1.pods
      ≡ some p
unfolding update_pod_status
update_pod_status-isolated trust_domain node_name namespace name status s j p l e =
    resumed-kept (some (record { trust_domain = trust_domain; path = "/node/" ++ node_name }))
      namespace name status j p (get pods namespace name s).0 (get pods namespace name s).1
      (foreign trust_domain node_name p e)
      (λ q h.
        ap (λ t. lookup (key "pods" namespace name) t.pods) (get-state pods namespace s name)
        ∙ get-found namespace name q s h)
      (ap (λ t. lookup j t.pods) (get-state pods namespace s name) ∙ l)
