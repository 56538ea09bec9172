-- ===== src/Historian/Replication/Results.antt =====
-- Chains of steps that may fail, taken apart.
use gizmo.Prelude.{◌≡◌, refl, Option, none, some, Bool, true, false}
use gizmo.Historian.Replication.{Failure, Result, ok, refused, ◌>>=◌, demand, some_or}

-- Inversion of a chain that ends well.
pub bind-eq-ok {κ μ} :
    {S : Type κ} {T : Type μ} (first : Result S) (rest : S → Result T) {t : T}
    → (first >>= rest) ≡ ok t
    → (s : S) × (first ≡ ok s) × (rest s ≡ ok t)
bind-eq-ok (refused failure) rest e = cc
bind-eq-ok (ok s) rest e = (s, refl, e)

pub demand-eq-ok : (b : Bool) (x : Failure) {u : Unit {0}} → demand b x ≡ ok u → b ≡ true
demand-eq-ok true x e = refl
demand-eq-ok false x e = cc

pub some_or-eq-ok {ℓ} :
    {A : Type ℓ} (x : Failure) (o : Option A) {a : A} → some_or x o ≡ ok a → o ≡ some a
some_or-eq-ok x none e = cc
some_or-eq-ok x (some a) e = cc
