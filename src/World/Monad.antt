-- ===== src/World/Monad.antt =====
-- Programs over a state that may end the process.
use px_installer.Base.{ℕ, List, ◌∷◌}
use px_installer.World.{World, Event}

-- A value, or the exit status of the process.
pub data Outcome (A : Type 0) : Type 0 where
  ret : A → Outcome A
  exited : ℕ → Outcome A

-- A program over a state of type `S`; the monitor's is `World`.
abbrev pub Program : Type 0 → Type 0 → Type 0
Program S A = S → Outcome A × S

abbrev pub M : Type 0 → Type 0
M A = Program World A

abbrev pub pure : {S A : Type 0} → A → Program S A
pure a w = (ret a, w)

-- `os.Exit(code)`
abbrev pub exit : {S A : Type 0} → ℕ → Program S A
exit code w = (exited code, w)

abbrev pub continue : {S A B : Type 0} → Outcome A × S → (A → Program S B) → Outcome B × S
continue (ret a, w) f = f a w
continue (exited code, w) f = (exited code, w)

infixl 5 ◌>>=◌ ◌>>◌
abbrev pub ◌>>=◌ : {S A B : Type 0} → Program S A → (A → Program S B) → Program S B
◌>>=◌ m f w = continue (m w) f

abbrev pub ◌>>◌ : {S A B : Type 0} → Program S A → Program S B → Program S B
◌>>◌ m k w = continue (m w) (λ _. k)

abbrev pub log : Event → World → World
log e w = record w { events = e ∷ w.events }

-- An event and its answer, which the events before it determine.
abbrev pub ask : {A : Type 0} → Event → (List Event → A) → M A
ask e answer w = (ret (answer w.events), log e w)

abbrev pub modify : {S : Type 0} → (S → S) → Program S (Unit {0})
modify f w = (ret tt, f w)

abbrev pub get : {S A : Type 0} → (S → A) → Program S A
get f w = (ret (f w), w)
