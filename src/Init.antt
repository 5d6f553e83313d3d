-- ===== src/Init.antt =====
-- px-init/px-init.go: the mount command of px-mon, before Portworx starts. Its calls are those of
-- px-mon.
use px_installer.Base.{Bytes, none, some, [], ◌∷◌, ◌++◌, lit}
use px_installer.World.{Error}
use px_installer.World.Monad.{pure, exit, ◌>>=◌, ◌>>◌}
use px_installer.Launcher.{Answers, Run, run_command, request, print, println, mount_command}

module _ (answers : Answers) where
  abbrev pub after_mount : Bytes → Error → Run Error
  after_mount stderr (some message) = do
    print (
        lit "Failed to enable shared mounts. Err: "
        ++ (message ++ (lit " Stderr: " ++ (stderr ++ lit "\n"))))
    pure (some message)
  after_mount stderr none = do println (lit "Enabled shared mounts successfully" ∷ []); pure none

  unfoldable pub enable_shared_mounts : Run Error
  enable_shared_mounts = do
    r ← request (run_command mount_command) (λ calls. answers.ran calls mount_command)
    after_mount r.output r.error

  -- The status is 0 whatever the command did.
  unfoldable pub main : Run (Unit {0})
  main = do enable_shared_mounts; exit 0
