-- ===== src/Scheduler/Persistence/Binds.antt =====
-- Chains of fallible steps: what a successful one went through, and their laws.
use netband.Base.{◌≡◌, refl, arith}
use netband.Scheduler.Store.{Result, ok, err}
use netband.Scheduler.Persistence.Format.{◌>>=◌}

pub >>=-eq-ok :
    {A B : Type 0} (m : Result A) (f : A → Result B) (b : B)
    → (m >>= f) ≡ ok b
    → (a : A) × (m ≡ ok a) × (f a ≡ ok b)
>>=-eq-ok (ok a) f b h = (a, refl, h)
>>=-eq-ok (err e) f b h = absurd (ground arith)

pub >>=_ok : {A : Type 0} (m : Result A) → (m >>= λ a. ok a) ≡ m
>>=_ok (ok a) = refl
>>=_ok (err e) = refl

pub >>=_assoc :
    {A B C : Type 0} (m : Result A) (f : A → Result B) (g : B → Result C)
    → ((m >>= f) >>= g) ≡ (m >>= λ a. f a >>= g)
>>=_assoc (ok a) f g = refl
>>=_assoc (err e) f g = refl

pub >>=_cong :
    {A B : Type 0} (m : Result A) (f g : A → Result B)
    → ((a : A) → f a ≡ g a)
    → (m >>= f) ≡ (m >>= g)
>>=_cong (ok a) f g h = h a
>>=_cong (err e) f g h = refl
