-- ===== src/Store/Rewriting.antt =====
-- Reading all values of a store, and writing a list of values to one.
use nimbuscore.Prelude.{
  ℕ, suc, ◌+◌, ◌≡◌, ◌≢◌, refl, sym, ap, ◌∙◌, subst, String, true, [], ◌∷◌, Option, none, some,
  Assoc, lookup, insert, lookup-insert, has_prefix, strip, length, Lacks, HasKeysOnce, arith,
  eq_iff, ◌==◌, Bool-cases, ◌⊎◌, inl, inr,
}
use nimbuscore.Store.{
  Store, Error, Result, ok, err, undecryptable, sealed, opened, put, listed_with, list_from,
  put_all, stop_on_error,
}

module _ {Bytes : Type 0} (size : Bytes → ℕ) (nonce : ℕ → Bytes)
    (seal : Bytes → Bytes → Bytes → Bytes) (unseal : Bytes → Bytes → Option Bytes) where
  -- The second map holds, in order, what the values of the first open to.
  pub data Opens (k previous : Option Bytes) : Assoc Bytes → Assoc Bytes → Type 0 where
    nothing : Opens k previous [] []
    entry :
        {j : String} {b v : Bytes} {m ps : Assoc Bytes}
        → opened size nonce seal unseal k previous b ≡ some v
        → Opens k previous m ps
        → Opens k previous ((j, b) ∷ m) ((j, v) ∷ ps)

  ok_injective : {a b : Assoc Bytes} → ok a ≡ ok b → a ≡ b
  ok_injective h = cc

  err_ok : {a : Assoc Bytes} → err undecryptable ≢ ok a
  err_ok h = cc

  err_other : {e : Error} {a : Assoc Bytes} → err e ≢ ok a
  err_other h = cc

  some-none : {a : Bytes} → some a ≢ none
  some-none h = cc

  listed_with-Opens :
      {k previous : Option Bytes} {m : Assoc Bytes} (j : String) (b : Bytes) (o : Option Bytes)
      (r : Result (Assoc Bytes)) (ps : Assoc Bytes)
      → opened size nonce seal unseal k previous b ≡ o
      → ((qs : Assoc Bytes) → r ≡ ok qs → Opens k previous m qs)
      → listed_with size nonce seal unseal j o r ≡ ok ps
      → Opens k previous ((j, b) ∷ m) ps
  listed_with-Opens j b none r ps e ih q = absurd (err_ok q)
  listed_with-Opens j b (some v) (err f) ps e ih q = absurd (err_other q)
  listed_with-Opens {k = k} {previous = previous} {m = m} j b (some v) (ok qs) ps e ih q =
      subst (Opens k previous ((j, b) ∷ m)) (ok_injective q) (entry e (ih qs refl))

  pub list_from-Opens :
      (s : Store Bytes) (m ps : Assoc Bytes)
      → list_from size nonce seal unseal s "" m ≡ ok ps
      → Opens s.key s.previous m ps
  unfolding list_from has_prefix strip
  list_from-Opens s [] ps h = subst (Opens s.key s.previous []) (ok_injective h) nothing
  list_from-Opens s ((j, b) ∷ m) ps h =
      listed_with-Opens j b (opened size nonce seal unseal s.key s.previous b)
        (list_from size nonce seal unseal s "" m) ps refl (λ qs e. list_from-Opens s m qs e) h

  pub Opens-lookup :
      {k previous : Option Bytes} {m ps : Assoc Bytes}
      → Opens k previous m ps
      → (j : String)
      → ((lookup j m ≡ none) × (lookup j ps ≡ none))
        ⊎ ((b : Bytes) × (v : Bytes) × (lookup j m ≡ some b)
            × (lookup j ps ≡ some v)
            × (opened size nonce seal unseal k previous b ≡ some v))
  unfolding lookup
  Opens-lookup nothing j = inl (refl, refl)
  Opens-lookup (entry {j = i} {b = b} {v = v} e o) j = elim (Bool-cases (i == j)) [
    | inl w ↦ inr (b, v, rw w, rw w, e)
    | inr w ↦ rw w (Opens-lookup o j)
  ]

  Opens-Lacks :
      {k previous : Option Bytes} {m ps : Assoc Bytes}
      → Opens k previous m ps
      → (j : String) → Lacks j m
      → Lacks j ps
  Opens-Lacks nothing j l = tt
  Opens-Lacks (entry e o) j l = (l.0, Opens-Lacks o j l.1)

  pub Opens-HasKeysOnce :
      {k previous : Option Bytes} {m ps : Assoc Bytes}
      → Opens k previous m ps
      → HasKeysOnce m
      → HasKeysOnce ps
  Opens-HasKeysOnce nothing h = tt
  Opens-HasKeysOnce (entry {j = j} e o) h = (Opens-Lacks o j h.0, Opens-HasKeysOnce o h.1)

  -- What stands under a key after the loop: the value of the list, sealed anew, or what stood there.
  abbrev pub AfterAll : Assoc Bytes → Store Bytes → Store Bytes → String → Type 0
  AfterAll ps s t j =
      ((lookup j ps ≡ none) × (lookup j t.entries ≡ lookup j s.entries))
      ⊎ ((v : Bytes) × (n : Bytes) × (lookup j ps ≡ some v)
          × (lookup j t.entries ≡ some (sealed size nonce seal unseal s.key n v)))

  abbrev pub Commits : Store Bytes → Type 0
  Commits s = (n : ℕ) → s.commits n ≡ true

  abbrev written : String → Bytes → Store Bytes → Store Bytes
  written k v s = record s {
    commands = suc s.commands;
    entries = insert k (sealed size nonce seal unseal s.key (nonce s.commands) v) s.entries;
  }

  put_up :
      (k : String) (v : Bytes) (s : Store Bytes)
      → Commits s
      → put size nonce seal unseal k v s ≡ (ok tt, written k v s)
  unfolding put
  put_up k v s c = ground (arith, c s.commands)

  Lacks-lookup : (k : String) (m : Assoc Bytes) → Lacks k m → lookup k m ≡ none
  unfolding lookup
  Lacks-lookup k [] l = refl
  Lacks-lookup k ((j, b) ∷ m) l = ground (arith, Lacks-lookup k m l.1)

  before :
      (k : String) (v : Bytes) (ps : Assoc Bytes) (s t : Store Bytes)
      → Lacks k ps
      → (j : String) → AfterAll ps (written k v s) t j
      → AfterAll ((k, v) ∷ ps) s t j
  unfolding lookup
  before k v ps s t l j a = elim (Bool-cases (k == j)) [
    | inl w ↦ elim a [
      | inl (x, y) ↦ inr (
        v,
        nonce s.commands,
        rw w,
        y
            ∙ lookup-insert k j (sealed size nonce seal unseal s.key (nonce s.commands) v) s.entries
            ∙ rw w,
      )
      | inr (u, n, x, y) ↦ absurd (
          some-none
            (sym x ∙ subst (λ i. lookup i ps ≡ none) ((eq_iff k j).0 w) (Lacks-lookup k ps l)))
    ]
    | inr w ↦ elim a [
      | inl (x, y) ↦ inl (
        rw w x,
        y
            ∙ lookup-insert k j (sealed size nonce seal unseal s.key (nonce s.commands) v) s.entries
            ∙ rw w,
      )
      | inr (u, n, x, y) ↦ inr (u, n, rw w x, y)
    ]
  ]

  pub put_all-AfterAll :
      (count : ℕ) (ps : Assoc Bytes) (s : Store Bytes)
      → Commits s
      → HasKeysOnce ps
      → (t : Store Bytes) × (put_all size nonce seal unseal count ps s
          ≡ ((ok tt, count + length ps), t))
        × (t.key ≡ s.key)
        × ((j : String) → AfterAll ps s t j)
  unfolding put_all lookup
  put_all-AfterAll count [] s c h = (s, ground arith, refl, λ j. inl (refl, refl))
  put_all-AfterAll count ((k, v) ∷ ps) s c h =
      let (t, e, q, f) = put_all-AfterAll (suc count) ps (written k v s) c h.1 in
      (
        t,
        ap
              (λ r.
                stop_on_error size nonce seal unseal count r
                  (put_all size nonce seal unseal (suc count) ps))
              (put_up k v s c)
            ∙ e
            ∙ ground arith,
        q,
        λ j. before k v ps s t h.0 j (f j),
      )
