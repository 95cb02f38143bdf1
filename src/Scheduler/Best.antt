-- ===== src/Scheduler/Best.antt =====
-- What `Schedule` chooses: a node that fits, of the greatest score.
use nimbuscore.Prelude.{
  String, ℤ, negsuc, ◌≤ℤ◌, ◌<ℤ◌, ◌≡◌, refl, ◌⊎◌, inl, inr, ◌↔◌, true, List, [], ◌∷◌, Option, none,
  some, All, All-In, In, here, there, arith,
}
use nimbuscore.Scheduler.{NodeCandidate, PodRequest, node_fits, score, consider, scan, schedule}

module _ (pod : PodRequest) where
  -- Every node that fits scores at most `s`.
  abbrev pub NoneAbove : ℤ → List NodeCandidate → Type 0
  NoneAbove s = All (λ m. node_fits pod m ≡ true → score m ≤ℤ s)

  -- What a scan that starts at `st` returns.
  abbrev Scanned : Option NodeCandidate × ℤ → List NodeCandidate → Option NodeCandidate × ℤ → Type 0
  Scanned st ns r =
      ((r ≡ st) × NoneAbove st.1 ns)
      ⊎ ((n : NodeCandidate) × In n ns
          × (node_fits pod n ≡ true)
          × (r ≡ (some n, score n))
          × (st.1 <ℤ score n)
          × NoneAbove (score n) ns)

  NoneAbove-mono : (s t : ℤ) (ns : List NodeCandidate) → s ≤ℤ t → NoneAbove s ns → NoneAbove t ns
  NoneAbove-mono s t [] h a = tt
  NoneAbove-mono s t (n ∷ ns) h a = (λ f. omega (arith, a.0 f), NoneAbove-mono s t ns h a.1)

  consider_cases :
      (st : Option NodeCandidate × ℤ) (n : NodeCandidate)
      → ((node_fits pod n ≡ true) × (st.1 <ℤ score n) × (consider pod st n ≡ (some n, score n)))
        ⊎ ((consider pod st n ≡ st) × (node_fits pod n ≡ true → score n ≤ℤ st.1))
  unfolding consider
  consider_cases (best, s) n = ground arith

  taken :
      (st r : Option NodeCandidate × ℤ) (n : NodeCandidate) (ns : List NodeCandidate)
      → node_fits pod n ≡ true
      → st.1 <ℤ score n
      → Scanned (some n, score n) ns r
      → Scanned st (n ∷ ns) r
  taken st r n ns fits above (inl (e, low)) =
      inr (n, here refl, fits, e, above, (λ _. omega arith, low))
  taken st r n ns fits above (inr (m, has, mfits, e, high, low)) =
      inr (m, there has, mfits, e, omega arith, (λ _. omega arith, low))

  passed :
      (st r : Option NodeCandidate × ℤ) (n : NodeCandidate) (ns : List NodeCandidate)
      → (node_fits pod n ≡ true → score n ≤ℤ st.1)
      → Scanned st ns r
      → Scanned st (n ∷ ns) r
  passed st r n ns low (inl (e, rest)) = inl (e, (low, rest))
  passed st r n ns low (inr (m, has, mfits, e, high, rest)) =
      inr (m, there has, mfits, e, high, (λ f. omega (arith, low f), rest))

  scan-Scanned :
      (st : Option NodeCandidate × ℤ) (ns : List NodeCandidate) → Scanned st ns (scan pod st ns)
  unfolding scan
  scan-Scanned st [] = inl (refl, tt)
  scan-Scanned st (n ∷ ns) = elim (consider_cases st n) [
    | inl (fits, above, e) ↦ rw e (taken st _ n ns fits above (scan-Scanned (some n, score n) ns))
    | inr (e, low) ↦ rw e (passed st _ n ns low (scan-Scanned st ns))
  ]

  -- A name is returned only of a candidate that fits the pod, and no candidate that fits has a
  -- greater score.
  pub schedule-some :
      (nodes : List NodeCandidate) {name : String}
      → schedule pod nodes ≡ some name
      → (n : NodeCandidate) × In n nodes
        × (n.name ≡ name)
        × (node_fits pod n ≡ true)
        × NoneAbove (score n) nodes
  unfolding schedule
  schedule-some nodes h = elim (scan-Scanned (none, negsuc 0) nodes) [
    | inl (e, low) ↦ ground arith
    | inr (n, has, fits, e, high, low) ↦ (n, has, ground arith, fits, low)
  ]

  -- No name is returned exactly when every candidate that fits has a negative score, so in
  -- particular when none fits.
  pub schedule-none_iff :
      (nodes : List NodeCandidate) → (schedule pod nodes ≡ none) ↔ NoneAbove (negsuc 0) nodes
  unfolding schedule
  schedule-none_iff nodes = elim (scan-Scanned (none, negsuc 0) nodes) [
    | inl (e, low) ↦ (λ _. low, λ _. ground arith)
    | inr (n, has, fits, e, high, low) ↦
        (λ h. ground arith, λ none_fit. absurd (omega (arith, All-In _ none_fit has fits)))
  ]
