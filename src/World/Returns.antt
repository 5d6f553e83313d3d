-- ===== src/World/Returns.antt =====
-- Programs that return a value, and do not end the process.
use px_installer.World.{World}
use px_installer.World.Monad.{M, Outcome, ret, exited, continue}

abbrev pub Returns : {A : Type 0} → Outcome A × World → Type 0
Returns (ret a, w) = Unit
Returns (exited code, w) = ⊥

abbrev pub Total : {A : Type 0} → M A → Type 0
Total m = (w : World) → Returns (m w)

pub continue-Returns :
    {A B : Type 0} (r : Outcome A × World) (f : A → M B)
    → Returns r
    → ((a : A) → Total (f a))
    → Returns (continue r f)
continue-Returns (ret a, w) f h k = k a w
continue-Returns (exited code, w) f h k = absurd h
