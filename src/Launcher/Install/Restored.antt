-- ===== src/Launcher/Install/Restored.antt =====
-- The standard output behind an install, and behind one whose pull fails.
use px_installer.Base.{Bool, true, false, none, some, List, [], ◌∷◌, ◌≡◌, refl, ◌∙◌, Bytes}
use px_installer.Base.Result.{Result, ok, err}
use px_installer.World.{Error}
use px_installer.World.Monad.{Outcome, ret, exited, continue}
use px_installer.Launcher.{
  open_pipe, Answers, Container, Mon, Output, Run, pipe, get_docker_client, get_px_containers,
}
use px_installer.Launcher.Stdout.{Keeps, get_docker_client-Keeps, get_px_containers-Keeps}
use px_installer.Launcher.Signals.Order.{Lists}
use px_installer.Launcher.Install.{
  Existing, all_removed, already_running, not_removed, after_start, after_create, after_info,
  start_px, after_pull, with_pipe, pull_and_start, after_existing, stop_or_remove, clear_existing,
  unless_running, with_containers, with_docker, install,
}

module _ (answers : Answers) (args : List Bytes) where
  -- The standard output behind a run that gave no error.
  abbrev Restores : Output → Outcome Error × Mon → Type 0
  Restores o r = r.0 ≡ ret none → r.1.stdout ≡ o

  continue-Restores :
      {A : Type 0} (r : Outcome A × Mon) (f : A → Run Error) (o : Output)
      → r.1.stdout ≡ o
      → ((a : A) (w : Mon) → Restores w.stdout (f a w))
      → Restores o (continue r f)
  continue-Restores (ret a, w) f o h k e = k a w e ∙ h
  continue-Restores (exited code, w) f o h k e = h

  after_start-Restores : (e : Error) (w : Mon) → Restores w.stdout (after_start answers args e w)
  after_start-Restores none w returned = refl
  after_start-Restores (some m) w returned = refl

  after_create-Restores :
      (r : Result Bytes Bytes) (w : Mon) → Restores w.stdout (after_create answers args r w)
  after_create-Restores (ok id) w returned = after_start-Restores _ _ returned
  after_create-Restores (err m) w returned = refl

  after_info-Restores :
      (r : Result Bytes Bytes) (w : Mon) → Restores w.stdout (after_info answers args r w)
  after_info-Restores (ok version) w returned = after_create-Restores _ _ returned
  after_info-Restores (err m) w returned = refl

  start_px-Restores : (w : Mon) → Restores w.stdout (start_px answers args w)
  unfolding start_px
  start_px-Restores w = after_info-Restores _ _

  after_pull-Restores :
      (o : Output) (output : Bytes) (e : Error) (w : Mon)
      → Restores o (after_pull answers args o output e w)
  after_pull-Restores o output none w returned = start_px-Restores _ returned
  after_pull-Restores o output (some m) w returned = absurd cc

  with_pipe-Restores :
      (e : Error) (w : Mon) → Restores w.stdout (with_pipe answers args w.stdout e w)
  with_pipe-Restores none w returned = after_pull-Restores w.stdout _ _ _ returned
  with_pipe-Restores (some m) w returned = refl

  pull_and_start-Restores : (w : Mon) → Restores w.stdout (pull_and_start answers args w)
  unfolding pull_and_start
  pull_and_start-Restores w returned = with_pipe-Restores _ _ returned

  after_existing-Keeps :
      (e : Error) (rest : Run Existing) → Keeps rest → Keeps (after_existing answers args e rest)
  after_existing-Keeps none rest k w = k w
  after_existing-Keeps (some m) rest k w = refl

  stop_or_remove-Keeps :
      (c : Container) (b : Bool) (rest : Run Existing)
      → Keeps rest
      → Keeps (stop_or_remove answers args c b rest)
  stop_or_remove-Keeps c true rest k w = refl
  stop_or_remove-Keeps c false rest k w = after_existing-Keeps _ rest k _

  clear_existing-Keeps : (cs : List Container) → Keeps (clear_existing answers args cs)
  unfolding clear_existing
  clear_existing-Keeps [] w = refl
  clear_existing-Keeps (c ∷ cs) w = stop_or_remove-Keeps c _ _ (clear_existing-Keeps cs) _

  unless_running-Restores :
      (e : Existing) (w : Mon) → Restores w.stdout (unless_running answers args e w)
  unless_running-Restores all_removed w returned = pull_and_start-Restores w returned
  unless_running-Restores already_running w returned = refl
  unless_running-Restores (not_removed m) w returned = refl

  with_containers-Restores :
      (r : Result Bytes (List Container)) (w : Mon)
      → Restores w.stdout (with_containers answers args r w)
  with_containers-Restores (err m) w = λ returned. refl
  with_containers-Restores (ok cs) w =
      continue-Restores (clear_existing answers args cs w) _ w.stdout (clear_existing-Keeps cs w)
        unless_running-Restores

  with_docker-Restores :
      (r : Result Bytes (Unit {0})) (w : Mon) → Restores w.stdout (with_docker answers args r w)
  with_docker-Restores (err m) w = λ returned. refl
  with_docker-Restores (ok u) w =
      continue-Restores (get_px_containers answers w) _ w.stdout (get_px_containers-Keeps answers w)
        with_containers-Restores

  -- An install without an error leaves the standard output as it found it.
  pub install-stdout :
      (w : Mon)
      → (install answers args w).0 ≡ ret none
      → (install answers args w).1.stdout ≡ w.stdout
  unfolding install
  install-stdout w =
      continue-Restores (get_docker_client answers w) _ w.stdout (get_docker_client-Keeps answers w)
        with_docker-Restores

  -- If Docker lists its containers, all of them are removed, the pipe is opened and the pull
  -- fails, then the install gives the error of the pull, and the standard output is left at the
  -- pipe.
  pub install-failed_pull :
      (cs : List Container) (w w2 w3 : Mon) (m : Bytes)
      → Lists answers w cs w2
      → clear_existing answers args cs w2 ≡ (ret all_removed, w3)
      → answers.piped w3.calls ≡ none
      → (answers.pulled (open_pipe ∷ w3.calls)).error ≡ some m
      → ((install answers args w).0 ≡ ret (some m)) × ((install answers args w).1.stdout ≡ pipe)
  unfolding install pull_and_start
  install-failed_pull cs w w2 w3 m (w1, client, listed) cleared piped failed =
      rw (client, listed, cleared, piped, failed) (refl, refl)
