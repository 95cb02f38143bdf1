-- ===== src/Admission/Images.antt =====
-- internal/admission/image.go. The verifier is a parameter: an interface of the package, whose
-- implementations check signatures with libraries and over the network.
use nimbuscore.Prelude.{String, List, [], ◌∷◌, Option, none, some}
use nimbuscore.Api.{Container}
use nimbuscore.Cluster.{M, pure, raise, denied}
use nimbuscore.Admission.{Request, Validator}

-- `verify` gives the error of an image reference, if any.
module _ (verify : String → Option String) where
  unfoldable pub first_unverified : List Container → Option String
  first_unverified [] = none
  first_unverified (c ∷ cs) =
      let rest = first_unverified cs in elim (verify c.image) [ none ↦ rest | some e ↦ some e ]

  abbrev pub verdict : Request → Option String → M Request
  verdict req none = pure req
  verdict req (some e) = raise (denied e)

  -- ImageSignaturePolicy.Admit
  unfoldable pub admit_images : Validator
  unfolding first_unverified
  admit_images req = verdict req (first_unverified req.spec.containers)
