-- ===== src/Cluster/Results.antt =====
-- What a result says of the steps behind it.
use nimbuscore.Prelude.{◌≡◌, ◌≢◌, refl}
use nimbuscore.Cluster.{Cluster, M, Result, ok, err, Error, resume, ◌>>=◌}

module _ {A : Type 0} where
  pub err_ok : {e : Error} {a : A} → err e ≢ ok a
  err_ok h = cc

  pub ok_injective : {a b : A} → ok a ≡ ok b → a ≡ b
  ok_injective h = cc

pub bind-ok :
    {A B : Type 0} (m : M A) (f : A → M B) (c : Cluster) (b : B)
    → ((m >>= f) c).0 ≡ ok b
    → (a : A) × ((m c).0 ≡ ok a) × ((f a (m c).1).0 ≡ ok b)
bind-ok {A = A} {B = B} m f c b h = resumed (m c).0 h
  where
    resumed :
        (r : Result A)
        → (resume r f (m c).1).0 ≡ ok b
        → (a : A) × (r ≡ ok a) × ((f a (m c).1).0 ≡ ok b)
    resumed (ok a) k = (a, refl, k)
    resumed (err e) k = absurd (err_ok k)
