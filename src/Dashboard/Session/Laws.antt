-- ===== src/Dashboard/Session/Laws.antt =====
-- Which tokens are accepted, and for how long.
use nimbuscore.Prelude.{
  ℕ, ◌+◌, ◌<◌, ℤ, pos, ltb_ℤ, add64, wrap, ◌+ℤ◌, half64, String, true, false, not, List, Option,
  some, atoi, itoa, atoi-itoa, cut_dot, cut_dot-append, itoa-LacksDot, ltb, if◌then◌else◌, ◌≡◌,
  refl, ap, ◌∙◌, arith, Option-cases, inl, inr,
}
use nimbuscore.Controller.Schedule.{decimal}
use nimbuscore.Dashboard.Session.{
  same_bytes, issue_token, valid_token, session_ttl, parted, signed, unexpired,
}

same_bytes_refl : (b : List ℕ) → same_bytes b b ≡ true
unfolding same_bytes
same_bytes_refl List.[] = refl
same_bytes_refl (List.◌∷◌ x b) = ground (arith, same_bytes_refl b)

module _ (mac : String → List ℕ) (encode : List ℕ → String)
    (decode : String → Option (List ℕ)) where
  later_expiry : (now : ℕ) → now + 86400 < half64 → add64 (pos now) session_ttl ≡ pos (now + 86400)
  unfolding wrap ◌+ℤ◌
  later_expiry now h = ground arith

  -- Where decoding undoes encoding, a token that is issued is accepted until a day has passed, and from
  -- then on it is refused.
  pub valid_token-issue_token :
      (now later : ℕ)
      → ((b : List ℕ) → decode (encode b) ≡ some b)
      → now + 86400 < half64
      → valid_token mac encode decode (pos later) (issue_token mac encode decode (pos now))
        ≡ ltb later (now + 86400)
  unfolding valid_token issue_token decimal
  valid_token-issue_token now later decodes h =
      let expiry = itoa (now + 86400) in
      rw (later_expiry now h) (
        ap (parted mac encode decode (pos later))
          (cut_dot-append expiry (encode (mac expiry)) (itoa-LacksDot (now + 86400)))
        ∙ ap (signed mac encode decode (pos later) expiry) (decodes (mac expiry))
        ∙ ap (λ b. if not b then false else unexpired mac encode decode (pos later) (atoi expiry))
            (same_bytes_refl (mac expiry))
        ∙ ap (unexpired mac encode decode (pos later)) (atoi-itoa (now + 86400) h)
        ∙ ground arith)

  same_bytes-eq : (a b : List ℕ) → same_bytes a b ≡ true → a ≡ b
  unfolding same_bytes
  same_bytes-eq List.[] List.[] h = refl
  same_bytes-eq List.[] (List.◌∷◌ y b) h = ground arith
  same_bytes-eq (List.◌∷◌ x a) List.[] h = ground arith
  same_bytes-eq (List.◌∷◌ x a) (List.◌∷◌ y b) h = ground (arith, same_bytes-eq a b)

  -- What an accepted token consists of.
  abbrev pub IsSigned : ℤ → String → Type 0
  IsSigned now token =
      (expiry : String) × (sig : String) × (end_at : ℤ) × (cut_dot token ≡ some (expiry, sig))
      × (decode sig ≡ some (mac expiry))
      × (atoi expiry ≡ some end_at)
      × (ltb_ℤ now end_at ≡ true)

  -- A token that is accepted carries a time that is still to come and the code of that time under this
  -- process's secret.
  pub valid_token_inv :
      (now : ℤ) (token : String)
      → valid_token mac encode decode now token ≡ true
      → IsSigned now token
  unfolding valid_token
  valid_token_inv now token h = elim (Option-cases (cut_dot token)) [
    | inl e ↦ ground arith
    | inr ((expiry, sig), e) ↦ elim (Option-cases (decode sig)) [
      | inl f ↦ ground arith
      | inr (b, f) ↦ elim (Option-cases (atoi expiry)) [
        | inl g ↦ ground arith
        | inr (end_at, g) ↦ (
          expiry,
          sig,
          end_at,
          e,
          f ∙ ap some (same_bytes-eq b (mac expiry) (ground arith)),
          g,
          ground arith,
        )
      ]
    ]
  ]
