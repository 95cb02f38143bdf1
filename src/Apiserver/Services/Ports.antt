-- ===== src/Apiserver/Services/Ports.antt =====
-- No two services have one node port.
use nimbuscore.Prelude.{
  ◌≡◌, refl, ◌∙◌, subst, sym, ap, inl, inr, ◌⊎◌, String, Bool, true, false, Option, none, some, any,
  ℤ, pos, eq_ℤ, insert, arith, Bool-cases, ◌==◌,
}
use nimbuscore.Api.{Service}
use nimbuscore.Cluster.{
  Cluster, Error, pure, ◌>>=◌, Result, ok, err, key, services, list, put, resume,
}
use nimbuscore.Cluster.Results.{err_ok, ok_injective, bind-ok}
use nimbuscore.Apiserver.Services.Reading.{
  IsReading, bind-IsReading, list-IsReading, resolve-IsReading,
}
use nimbuscore.Apiserver.Services.Allocation.{IsFirstFree, allocation-IsFirstFree}
use nimbuscore.Apiserver.Codes.{answering, internal, recoded}
use nimbuscore.Apiserver.Services.{
  has_port, taken_by_other, first_free, node_port_count, node_port_range_min, free_or_fail,
  allocate_node_port, node_port_in_use, if_used, choose_port, resolve, with_port, stored_with,
  create_service,
}
use nimbuscore.Apiserver.Services.Allotted.{
  IsAllotted, IsFreeFor, key_of, inserted, all_services, free_of_untaken, free_of_own,
}

free_or_fail-IsReading : (o : Option ℤ) → IsReading (free_or_fail o)
free_or_fail-IsReading none t = refl
free_or_fail-IsReading (some p) t = refl

if_used-IsReading : (s : Service) (used : Bool) → IsReading (if_used s used)
if_used-IsReading s true t = refl
if_used-IsReading s false t = refl

choose_port-IsReading : (s : Service) → IsReading (choose_port s)
unfolding choose_port allocate_node_port node_port_in_use
choose_port-IsReading s c = elim (Bool-cases (eq_ℤ s.spec.node_port (pos 0))) [
  | inl e ↦ rw e (
      bind-IsReading (list services "")
        (λ all. free_or_fail (first_free node_port_count node_port_range_min all))
        (list-IsReading services "")
        (λ all. free_or_fail-IsReading (first_free node_port_count node_port_range_min all)) c)
  | inr e ↦ rw e (
      bind-IsReading
        (answering internal
          (node_port_in_use s.spec.node_port s.metadata.namespace s.metadata.name))
        (if_used s)
        (bind-IsReading (list services "")
          (λ all. pure (taken_by_other s.spec.node_port s.metadata.namespace s.metadata.name all))
          (list-IsReading services "") (λ all t. refl))
        (if_used-IsReading s) c)
]

recoded-ok : {A : Type 0} (code : Error) (r : Result A) (a : A) → recoded code r ≡ ok a → r ≡ ok a
recoded-ok code (ok b) a h = h
recoded-ok code (err e) a h = absurd (err_ok h)

free_or_fail-ok :
    (o : Option ℤ) (t : Cluster) (port : ℤ) → (free_or_fail o t).0 ≡ ok port → o ≡ some port
free_or_fail-ok none t port h = absurd (err_ok h)
free_or_fail-ok (some p) t port h = ap some (ok_injective h)

if_used-ok :
    (s : Service) (used : Bool) (t : Cluster) (port : ℤ)
    → (if_used s used t).0 ≡ ok port
    → (used ≡ false) × (s.spec.node_port ≡ port)
if_used-ok s true t port h = absurd (err_ok h)
if_used-ok s false t port h = (refl, ok_injective h)

module _ (s : Service) (c : Cluster) (h : IsAllotted c.services) (port : ℤ) where
  allocated-IsFreeFor : (allocate_node_port c).0 ≡ ok port → IsFreeFor (key_of s) port c.services
  unfolding allocate_node_port
  allocated-IsFreeFor e =
      let (all, l, f) =
        bind-ok (list services "")
          (λ all. free_or_fail (first_free node_port_count node_port_range_min all)) c port e in
      let (n, p, a, b, u, k) =
        subst (IsFirstFree node_port_count node_port_range_min all)
          (free_or_fail-ok (first_free node_port_count node_port_range_min all)
            (list services "" c).1 port f)
          (allocation-IsFirstFree all) in
      free_of_untaken s c h all port (all_services c all l)
        (subst (λ x. any (has_port x) all ≡ false) (sym p) u)

  checked-IsFreeFor :
      ((answering internal (node_port_in_use s.spec.node_port s.metadata.namespace s.metadata.name)
            >>= if_used s)
          c).0
        ≡ ok port
      → IsFreeFor (key_of s) port c.services
  unfolding node_port_in_use
  checked-IsFreeFor e =
      let (used, l, f) =
        bind-ok
          (answering internal
            (node_port_in_use s.spec.node_port s.metadata.namespace s.metadata.name))
          (if_used s) c port e in
      let (g, q) = if_used-ok s used _ port f in
      let (all, k, m) =
        bind-ok (list services "")
          (λ all. pure (taken_by_other s.spec.node_port s.metadata.namespace s.metadata.name all)) c
          used (recoded-ok internal _ used l) in
      subst (λ x. IsFreeFor (key_of s) x c.services) q
        (free_of_own s c h all (all_services c all k) (ok_injective m ∙ g))

  choose_port-IsFreeFor : (choose_port s c).0 ≡ ok port → IsFreeFor (key_of s) port c.services
  unfolding choose_port
  choose_port-IsFreeFor e = elim (Bool-cases (eq_ℤ s.spec.node_port (pos 0))) [
    | inl z ↦ allocated-IsFreeFor (recoded-ok internal (allocate_node_port c).0 port (rw z at e))
    | inr z ↦ checked-IsFreeFor (rw z at e)
  ]

put-services :
    (namespace name : String) (x : Service) (t : Cluster)
    → ((put services namespace name x t).1.services ≡ t.services)
      ⊎ ((put services namespace name x t).1.services
          ≡ insert (key "services" namespace name) x t.services)
unfolding put
put-services namespace name x t = ground arith

stored_with-IsAllotted :
    (s : Service) (port : ℤ) (t : Cluster)
    → IsAllotted t.services
    → IsFreeFor (key_of s) port t.services
    → IsAllotted (stored_with s port t).1.services
stored_with-IsAllotted s port t h f =
    subst IsAllotted (sym (after t_put.0 t_put.1))
      (elim (put-services s.metadata.namespace s.metadata.name (with_port s port) t) [
        | inl e ↦ subst IsAllotted (sym e) h
        | inr e ↦ subst IsAllotted (sym e) (inserted (with_port s port) t.services h f)
      ])
  where
    t_put : Result (Unit {0}) × Cluster
    t_put = put services s.metadata.namespace s.metadata.name (with_port s port) t

    after :
        (r : Result (Unit {0})) (u : Cluster)
        → (resume (recoded internal r) (λ _. resolve (with_port s port)) u).1.services ≡ u.services
    after (ok a) u = resolve-IsReading (with_port s port) u
    after (err e) u = refl

-- Creating a service keeps the invariant that each service is stored under its own key and no two
-- services have one node port other than 0, whatever node port is asked for, also when the call fails
-- or operations of the store fail on the way.
pub create_service-IsAllotted :
    (s : Service) (c : Cluster) → IsAllotted c.services → IsAllotted (create_service s c).1.services
unfolding create_service
create_service-IsAllotted s c h = elim (Bool-cases (s.metadata.name == "")) [
  | inl e ↦ rw e h
  | inr e ↦ rw e (
      created (choose_port s c).0 (choose_port s c).1 (choose_port-IsReading s c)
        (choose_port-IsFreeFor s c h))
]
  where
    created :
        (r : Result ℤ) (t : Cluster)
        → t.services ≡ c.services
        → ((port : ℤ) → r ≡ ok port → IsFreeFor (key_of s) port c.services)
        → IsAllotted (resume r (stored_with s) t).1.services
    created (ok port) t q f =
        stored_with-IsAllotted s port t (subst IsAllotted (sym q) h)
          (subst (IsFreeFor (key_of s) port) (sym q) (f port refl))
    created (err e) t q f = subst IsAllotted (sym q) h
