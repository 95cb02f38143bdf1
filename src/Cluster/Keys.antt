-- ===== src/Cluster/Keys.antt =====
-- The keys of one kind and one namespace differ as the names do.
use Prim.Native.String.{◌++◌}
use text.Mathlib.TextLemmas.{append_cancel_left, append_assoc}
use nimbuscore.Prelude.{
  String, none, some, ◌≡◌, ◌≢◌, refl, sym, ap, subst, ◌∙◌, has_prefix, strip-append, inl, inr, Bool,
  true, false, Bool-cases, ◌==◌, eq_iff,
}
use nimbuscore.Cluster.{key, list_prefix}

pub key_injective :
    (kind namespace a b : String) → key kind namespace a ≡ key kind namespace b → a ≡ b
unfolding key
key_injective kind namespace a b h = elim (Bool-cases (namespace == "")) [
  | inl e ↦ behind kind "/" (append_cancel_left "/registry/" _ _ (rw e at h))
  | inr e ↦ behind namespace "/" (
      append_cancel_left "/" _ _
        (append_cancel_left kind _ _ (append_cancel_left "/registry/" _ _ (rw e at h))))
]
  where
    behind : (x y : String) → x ++ y ++ a ≡ x ++ y ++ b → a ≡ b
    behind x y e = append_cancel_left y a b (append_cancel_left x _ _ e)

pub key_ne :
    (kind namespace a b : String) → a ≢ b → (key kind namespace a == key kind namespace b) ≡ false
key_ne kind namespace a b h = elim (Bool-cases (key kind namespace a == key kind namespace b)) [
  | inl e ↦ absurd (h (key_injective kind namespace a b ((eq_iff _ _).0 e)))
  | inr e ↦ e
]

pub has_prefix-append : (p s : String) → has_prefix (p ++ s) p ≡ true
unfolding has_prefix
has_prefix-append p s =
    subst (λ o. elim o as (λ x. Bool) [ none ↦ false | some r ↦ true ] ≡ true)
      (sym (strip-append p s)) refl

regrouped : (a b c d : String) → (a ++ b ++ c) ++ d ≡ a ++ b ++ c ++ d
regrouped a b c d = append_assoc a (b ++ c) d ∙ ap (λ t. a ++ t) (append_assoc b c d)

-- A list of all objects of a kind reads every key of the kind.
pub key-has_prefix :
    (kind namespace name : String)
    → has_prefix (key kind namespace name) (list_prefix kind "") ≡ true
unfolding key list_prefix
key-has_prefix kind namespace name = elim (Bool-cases (namespace == "")) [
  | inl e ↦ rw e (
      subst (λ k. has_prefix k ("/registry/" ++ kind ++ "/") ≡ true)
        (regrouped "/registry/" kind "/" name)
        (has_prefix-append ("/registry/" ++ kind ++ "/") name))
  | inr e ↦ rw e (
      subst (λ k. has_prefix k ("/registry/" ++ kind ++ "/") ≡ true)
        (regrouped "/registry/" kind "/" (namespace ++ "/" ++ name))
        (has_prefix-append ("/registry/" ++ kind ++ "/") (namespace ++ "/" ++ name)))
]
