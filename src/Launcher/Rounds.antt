-- ===== src/Launcher/Rounds.antt =====
-- What ending containers one after the other may do.
use px_installer.Base.{Bool, none, List, [], ◌∷◌, ◌≡◌, ◌≢◌, Bytes}
use px_installer.World.{Error}
use px_installer.Launcher.{Call, Container, remove_container}

-- `halt` ends a container and `halted` answers it; `force` goes with the removal.
module _ (halt : Bytes → Call) (halted : List Call → Bytes → Error) (force : Bool) where
  -- Every container is halted once, in order; it is removed, at once, only if it was halted. The
  -- calls before and after stand for the state of the host.
  pub data Rounds : List Container → List Call → List Call → Type 0 where
    all_done : (calls : List Call) → Rounds [] calls calls
    kept :
        (c : Container) (cs : List Container) (before after : List Call)
        → halted before c.id ≢ none
        → Rounds cs (halt c.id ∷ before) after
        → Rounds (c ∷ cs) before after
    ended :
        (c : Container) (cs : List Container) (before after : List Call)
        → halted before c.id ≡ none
        → Rounds cs (remove_container c.id force ∷ halt c.id ∷ before) after
        → Rounds (c ∷ cs) before after
