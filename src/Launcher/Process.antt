-- ===== src/Launcher/Process.antt =====
-- `main` of px-mon/px-mon.go.
pub mod Steps
use px_installer.Base.{none, some, List, [], ◌∷◌, Bytes, lit}
use px_installer.World.{Error}
use px_installer.World.Monad.{pure, exit, ◌>>=◌, ◌>>◌}
use px_installer.Launcher.{Answers, Run, println, enable_shared_mounts}
use px_installer.Launcher.Install.{install}

module _ (answers : Answers) where
  abbrev pub after_install : Error → Run (Unit {0})
  after_install (some message) = do
    println (lit "Failed to start px container. Err: " ∷ message ∷ [])
    exit 0
  after_install none = pure tt

  -- It returns where the process waits for signals, and exits where `main` is left.
  unfoldable pub main : List Bytes → Run (Unit {0})
  main args = do enable_shared_mounts answers; e ← install answers args; after_install e
