-- ===== src/Agent/Images.antt =====
-- Image references of internal/agent/process.go: the registry and the tag that a short one leaves out.
pub mod Laws
use Prim.Native.Char.{code}
use Prim.Native.String.{◌++◌}
use nimbuscore.Prelude.{
  ℕ, zero, suc, String, Bool, true, false, ◌||◌, eqb, ltb, has_prefix, ◌==◌, if◌then◌else◌,
}

-- strings.Contains(s, c) for one character
unfoldable pub contains_char : ℕ → String → Bool
contains_char c String.[] = false
contains_char c (String.◌∷◌ d s) = eqb (code d) c || contains_char c s

-- s[:strings.Index(s, "/")], or all of `s`
unfoldable pub first_segment : String → String
first_segment String.[] = String.[]
first_segment (String.◌∷◌ d s) =
    let rest = first_segment s in if eqb (code d) b'/' then String.[] else String.◌∷◌ d rest

-- strings.LastIndex(s, c) plus one, and zero if the character is not there.
unfoldable pub last_index : ℕ → String → ℕ
last_index c String.[] = 0
last_index c (String.◌∷◌ d s) = elim (last_index c s) [
  | zero ↦ if eqb (code d) c then 1 else 0
  | suc n ↦ suc (suc n)
]

-- expandRegistry
unfoldable pub expand_registry : String → String
unfolding contains_char first_segment
expand_registry ref =
    if has_prefix ref "docker.io/" || has_prefix ref "localhost/"
    then ref
    else if contains_char b'/' ref
    then (if (contains_char b'.' (first_segment ref) || contains_char b':' (first_segment ref))
          || first_segment ref == "localhost"
        then ref
        else "docker.io/" ++ ref)
    else "docker.io/library/" ++ ref

-- ensureTagOrDigest
unfoldable pub ensure_tag_or_digest : String → String
unfolding contains_char last_index
ensure_tag_or_digest ref =
    if contains_char b'@' ref
    then ref
    else if ltb (last_index b'/' ref) (last_index b':' ref)
    then ref
    else ref ++ ":latest"

-- resolveImageRef
unfoldable pub resolve_image_ref : String → String
unfolding expand_registry ensure_tag_or_digest
resolve_image_ref ref = ensure_tag_or_digest (expand_registry ref)
