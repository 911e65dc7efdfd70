-- ===== src/Errors/Steps.antt =====
-- What a chain of calls that ends well has gone through.
use tcabci_read_go_client.Prelude.{◌≡◌, refl, Bool, true, false}
use tcabci_read_go_client.Errors.{GoError, Result, ok, err, ◌>>=◌, ◌>>◌, guard}

-- The value of the first call, with which the rest ends well.
pub bind_inv {ℓ κ} :
    {A : Type ℓ} {B : Type κ} (m : Result A) (k : A → Result B) {b : B}
    → m >>= k ≡ ok b
    → (a : A) × (m ≡ ok a) × (k a ≡ ok b)
bind_inv (ok a) k h = (a, refl, h)
bind_inv (err e) k h = cc

pub guard_inv {ℓ} :
    {B : Type ℓ} (test : Bool) (e : GoError) (k : Result B) {b : B}
    → guard test e >> k ≡ ok b
    → (test ≡ true) × (k ≡ ok b)
guard_inv true e k h = (refl, h)
guard_inv false e k h = cc

pub then_inv {ℓ} :
    {B : Type ℓ} (m : Result (Unit {0})) (k : Result B) {b : B}
    → m >> k ≡ ok b
    → (m ≡ ok tt) × (k ≡ ok b)
then_inv (ok u) k h = (refl, h)
then_inv (err e) k h = cc
