-- ===== src/Monitor/DoInstall/Finished.antt =====
-- What an install without an error leaves.
use px_installer.Base.{none, some, ◌≡◌, refl, subst, lit, Bytes}
use px_installer.Base.Result.{Result, ok, err}
use px_installer.World.{Error, Env, Node, World, finished}
use px_installer.World.Monad.{M, Outcome, ret, exited, continue}
use px_installer.Inspect.{SimpleContainerConfig, get_my_container_id}
use px_installer.Docker.Pull.{DockerInstaller, extract_config}
use px_installer.Monitor.Args.{Settings}
use px_installer.Monitor.Finalize.{InstallStatus}
use px_installer.Monitor.DoInstall.{
  prefixed, finalize_if, set_finished_unless, after_install, with_config, with_installer, with_id,
  do_install,
}

-- Where it returns without an error, the state of the install is finished.
abbrev EndsFinished : Outcome Error × World → Type 0
EndsFinished (ret none, w) = w.state ≡ finished
EndsFinished (ret (some message), w) = Unit
EndsFinished (exited code, w) = Unit

continue-EndsFinished :
    {A : Type 0} (r : Outcome A × World) (f : A → M Error)
    → ((a : A) (w : World) → EndsFinished (f a w))
    → EndsFinished (continue r f)
continue-EndsFinished (ret a, w) f k = k a w
continue-EndsFinished (exited code, w) f k = tt

module _ (env : Env) (s : Settings) (px_tag : Bytes) (n : Node) where
  set_finished_unless-EndsFinished :
      (e : Error) (w : World) → EndsFinished (set_finished_unless env s px_tag n e w)
  set_finished_unless-EndsFinished none w = refl
  set_finished_unless-EndsFinished (some m) w = tt

  after_install-EndsFinished :
      (r : Result Bytes InstallStatus) (w : World) → EndsFinished (after_install env s px_tag n r w)
  after_install-EndsFinished (err m) w = tt
  after_install-EndsFinished (ok st) w =
      continue-EndsFinished (finalize_if env s px_tag n st w) _ (λ e.
        set_finished_unless-EndsFinished (prefixed (lit "Could not finalize OCI install: ") e))

  with_config-EndsFinished :
      (r : Result Bytes SimpleContainerConfig) (w : World)
      → EndsFinished (with_config env s px_tag n r w)
  with_config-EndsFinished (err m) w = tt
  with_config-EndsFinished (ok cfg) w = continue-EndsFinished _ _ after_install-EndsFinished

  with_installer-EndsFinished :
      (id : Bytes) (r : Result Bytes DockerInstaller) (w : World)
      → EndsFinished (with_installer env s px_tag n id r w)
  with_installer-EndsFinished id (err m) w = tt
  with_installer-EndsFinished id (ok di) w =
      continue-EndsFinished (extract_config env id w) _ with_config-EndsFinished

  with_id-EndsFinished :
      (r : Result Bytes Bytes) (w : World) → EndsFinished (with_id env s px_tag n r w)
  with_id-EndsFinished (err m) w = tt
  with_id-EndsFinished (ok id) w = continue-EndsFinished _ _ (with_installer-EndsFinished id)

  -- An install that gives no error has set the state to finished, whether anything had to be
  -- installed or restarted or not.
  pub do_install-finished :
      (w w' : World) → do_install env s px_tag n w ≡ (ret none, w') → w'.state ≡ finished
  unfolding do_install
  do_install-finished w w' e =
      subst EndsFinished e
        (continue-EndsFinished (get_my_container_id env w) _ with_id-EndsFinished)
