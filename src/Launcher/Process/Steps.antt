-- ===== src/Launcher/Process/Steps.antt =====
-- The process of px-mon over the signals that it gets once `main` waits. A handler runs to its end
-- before the next signal comes.
use px_installer.Base.{ℕ, none, some, List, ◌≡◌, refl, ◌∙◌, Bytes}
use px_installer.World.{Error}
use px_installer.World.Monad.{Outcome, ret, exited, continue}
use px_installer.Launcher.{Answers, Mon, enable_shared_mounts}
use px_installer.Launcher.Stdout.{enable_shared_mounts-Keeps, handle_signal-Keeps}
use px_installer.Launcher.Signals.{Signal, handle_signal}
use px_installer.Launcher.Install.{install}
use px_installer.Launcher.Install.Restored.{install-stdout}
use px_installer.Launcher.Process.{after_install, main}

pub data Process : Type 0 where
  waiting : Mon → Process
  ended_with : ℕ → Mon → Process

abbrev pub process_of : Outcome (Unit {0}) × Mon → Process
process_of (ret u, w) = waiting w
process_of (exited code, w) = ended_with code w

module _ (answers : Answers) where
  pub data Step : Process → Process → Type 0 where
    signalled :
        (sig : Signal) (name : Bytes) (w : Mon)
        → Step (waiting w) (process_of (handle_signal answers sig name w))

  module _ (args : List Bytes) (start : Mon) where
    pub data Reach : Process → Type 0 where
      launched : Reach (process_of (main answers args start))
      stepped : (p q : Process) → Reach p → Step p q → Reach q

    -- The standard output of a process that waits is the one it was started with.
    abbrev pub IsRestored : Process → Type 0
    IsRestored (waiting w) = w.stdout ≡ start.stdout
    IsRestored (ended_with code w) = Unit

    process_of-IsRestored :
        (r : Outcome (Unit {0}) × Mon)
        → (r.0 ≡ ret tt → r.1.stdout ≡ start.stdout)
        → IsRestored (process_of r)
    process_of-IsRestored (ret u, w) h = h refl
    process_of-IsRestored (exited code, w) h = tt

    after_install-stdout :
        (r : Outcome Error × Mon)
        → (r.0 ≡ ret none → r.1.stdout ≡ start.stdout)
        → (continue r (after_install answers)).0 ≡ ret tt
        → (continue r (after_install answers)).1.stdout ≡ start.stdout
    after_install-stdout (ret none, w) h returned = h refl
    after_install-stdout (ret (some m), w) h returned = absurd cc
    after_install-stdout (exited code, w) h returned = absurd cc

    with_mounts-stdout :
        (r : Outcome Error × Mon)
        → r.1.stdout ≡ start.stdout
        → (continue r (λ _ w. continue (install answers args w) (after_install answers))).0 ≡ ret tt
        → (continue r (λ _ w. continue (install answers args w) (after_install answers))).1.stdout
          ≡ start.stdout
    with_mounts-stdout (ret e, w) h returned =
        after_install-stdout (install answers args w) (λ ok. install-stdout answers args w ok ∙ h)
          returned
    with_mounts-stdout (exited code, w) h returned = absurd cc

    main-stdout :
        (main answers args start).0 ≡ ret tt → (main answers args start).1.stdout ≡ start.stdout
    unfolding main
    main-stdout returned =
        with_mounts-stdout (enable_shared_mounts answers start)
          (enable_shared_mounts-Keeps answers start) returned

    -- In every state that px-mon reaches from its start by signals, a process that waits for the
    -- next signal has the standard output that it was started with.
    pub Reach-IsRestored : (p : Process) → Reach p → IsRestored p
    Reach-IsRestored _ launched = process_of-IsRestored (main answers args start) main-stdout
    Reach-IsRestored _ (stepped _ _ r (signalled sig name w)) =
        process_of-IsRestored (handle_signal answers sig name w)
          (λ _. handle_signal-Keeps answers sig name w ∙ Reach-IsRestored (waiting w) r)
