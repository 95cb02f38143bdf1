-- ===== src/Federation/Laws.antt =====
-- The service, its connections and the registry agree.
use nimbuscore.Prelude.{
  ℕ, String, Bool, true, false, ◌||◌, Option, none, some, lookup, lookup-insert, lookup-remove,
  ◌==◌, if◌then◌else◌, ◌≡◌, sym, ap, ◌∙◌, arith, Bool-cases, inl, inr,
}
use nimbuscore.Cluster.{Result, ok, err}
use nimbuscore.Federation.{
  FederationService, register, unregister, register_cluster, unregister_cluster, joined,
}

abbrev pub is_some {ℓ} : {A : Type ℓ} → Option A → Bool
is_some none = false
is_some (some a) = true

-- Each name has the same connection in the service and in the registry, and has one exactly if it is
-- the name of a cluster that is listed.
pub record IsConsistent (svc : FederationService) : Type 0 where
  pub same_conn : (name : String) → lookup name svc.registry ≡ lookup name svc.conns
  pub listed :
      (name : String) → is_some (lookup name svc.remote_clusters) ≡ is_some (lookup name svc.conns)

joined-IsConsistent :
    (name api_addr : String) (r : Result ℕ) (svc : FederationService)
    → IsConsistent svc
    → IsConsistent (joined name api_addr r svc).1
unfolding register
joined-IsConsistent name api_addr (err e) svc h = h
joined-IsConsistent name api_addr (ok conn) svc h = record {
  same_conn = λ other.
      lookup-insert name other conn svc.registry
      ∙ ap (λ o. if name == other then some conn else o) (h.same_conn other)
      ∙ sym (lookup-insert name other conn svc.conns);
  listed = λ other. ground (
    arith,
    lookup-insert name other conn svc.conns,
    lookup-insert name other (record { name = name; api_addr = api_addr }) svc.remote_clusters,
    h.listed other,
  );
}

-- Registering and unregistering a cluster, with any answers of the remote side, keep the service and
-- the registry consistent.
pub register_cluster-IsConsistent :
    (dial : String → String → String → Result ℕ) (name api_addr join_token gone : String)
    (svc : FederationService)
    → IsConsistent svc
    → IsConsistent (register_cluster dial name api_addr join_token svc).1
      × IsConsistent (unregister_cluster gone svc)
unfolding register_cluster unregister_cluster unregister
register_cluster-IsConsistent dial name api_addr join_token gone svc h = (
  elim (Bool-cases ((name == "" || api_addr == "") || join_token == "")) [
    | inl e ↦ rw e h
    | inr e ↦ rw e (joined-IsConsistent name api_addr (dial name api_addr join_token) svc h)
  ],
  record {
    same_conn = λ other.
        lookup-remove gone other svc.registry
        ∙ ap (λ o. if gone == other then none else o) (h.same_conn other)
        ∙ sym (lookup-remove gone other svc.conns);
    listed = λ other. ground (
      arith,
      lookup-remove gone other svc.conns,
      lookup-remove gone other svc.remote_clusters,
      h.listed other,
    );
  },
)
