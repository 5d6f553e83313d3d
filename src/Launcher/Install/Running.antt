-- ===== src/Launcher/Install/Running.antt =====
-- An install where a container already runs.
use px_installer.Base.{
  Bool, true, false, none, List, [], ◌∷◌, ◌++◌, ◌≡◌, refl, All, Bytes, lit, str_eq,
}
use px_installer.World.Monad.{Outcome, ret, exited, continue}
use px_installer.Launcher.{Answers, Call, Container, Mon, remove_container}
use px_installer.Launcher.Signals.Order.{Lists}
use px_installer.Launcher.Install.{
  Existing, all_removed, already_running, not_removed, clear_existing, unless_running, install,
}

abbrev pub is_running : Container → Bool
is_running c = str_eq c.state (lit "running")

module _ (answers : Answers) (args : List Bytes) where
  -- The removals of these containers are answered without an error.
  abbrev pub Removable : List Container → List Call → Type 0
  Removable [] calls = Unit
  Removable (c ∷ cs) calls =
      (answers.removed calls c.id ≡ none) × Removable cs (remove_container c.id false ∷ calls)

  abbrev pub removals : List Container → List Call → List Call
  removals [] calls = calls
  removals (c ∷ cs) calls = removals cs (remove_container c.id false ∷ calls)

  clear_existing-running :
      (front : List Container) (c : Container) (back : List Container) (w : Mon)
      → All (λ d. is_running d ≡ false) front
      → Removable front w.calls
      → is_running c ≡ true
      → ((clear_existing answers args (front ++ (c ∷ back)) w).0 ≡ ret already_running)
        × ((clear_existing answers args (front ++ (c ∷ back)) w).1.calls ≡ removals front w.calls)
  unfolding clear_existing
  clear_existing-running [] c back w idle removable running = rw running (refl, refl)
  clear_existing-running (d ∷ front) c back w idle removable running =
      rw (idle.0, removable.0) (clear_existing-running front c back _ idle.1 removable.1 running)

  already :
      (r : Outcome Existing × Mon) (calls : List Call)
      → (r.0 ≡ ret already_running) × (r.1.calls ≡ calls)
      → ((continue r (unless_running answers args)).0 ≡ ret none)
        × ((continue r (unless_running answers args)).1.calls ≡ calls)
  already (ret already_running, w) calls (e, same) = (refl, same)
  already (ret all_removed, w) calls (e, same) = absurd cc
  already (ret (not_removed m), w) calls (e, same) = absurd cc
  already (exited code, w) calls (e, same) = absurd cc

  -- If Docker lists its containers, one that runs ends the install without an error: the
  -- containers before it in the list, which do not run and can be removed, are removed, and
  -- nothing else is done: no pull, no new container, and none behind it is touched.
  pub install-running :
      (front : List Container) (c : Container) (back : List Container) (w w2 : Mon)
      → Lists answers w (front ++ (c ∷ back)) w2
      → All (λ d. is_running d ≡ false) front
      → Removable front w2.calls
      → is_running c ≡ true
      → ((install answers args w).0 ≡ ret none)
        × ((install answers args w).1.calls ≡ removals front w2.calls)
  unfolding install
  install-running front c back w w2 (w1, client, listed) idle removable running =
      rw (client, listed)
        (already (clear_existing answers args (front ++ (c ∷ back)) w2) _
          (clear_existing-running front c back w2 idle removable running))
