-- ===== src/Launcher/Stdout.antt =====
-- The standard output behind the steps of px-mon.
use px_installer.Base.{none, some, List, [], ◌∷◌, ◌≡◌, refl, ◌∙◌, Bytes}
use px_installer.Base.Result.{Result, ok, err}
use px_installer.World.{Error}
use px_installer.World.Monad.{Outcome, ret, exited, continue}
use px_installer.Launcher.{
  Answers, Container, Mon, Output, Run, get_docker_client, get_px_containers, enable_shared_mounts,
  after_mount, checked, with_new_client,
}
use px_installer.Launcher.Signals.{
  Signal, sig_term, sig_kill, other_signal, after_removal, after_stop, stop_all, stop_listed,
  term_with_client, handler_sig_term, after_kill, kill_all, kill_listed, kill_with_client,
  handler_sig_kill, handle_signal,
}

abbrev pub Keeps : {A : Type 0} → Run A → Type 0
Keeps m = (w : Mon) → (m w).1.stdout ≡ w.stdout

pub continue-Keeps :
    {A B : Type 0} (r : Outcome A × Mon) (f : A → Run B) (o : Output)
    → r.1.stdout ≡ o
    → ((a : A) → Keeps (f a))
    → (continue r f).1.stdout ≡ o
continue-Keeps (ret a, w) f o h k = k a w ∙ h
continue-Keeps (exited code, w) f o h k = h

module _ (answers : Answers) where
  checked-Keeps : (e : Error) → Keeps (checked answers e)
  checked-Keeps none w = refl
  checked-Keeps (some message) w = refl

  with_new_client-Keeps : (e : Error) → Keeps (with_new_client answers e)
  with_new_client-Keeps none w = checked-Keeps _ _
  with_new_client-Keeps (some message) w = refl

  pub get_docker_client-Keeps : Keeps (get_docker_client answers)
  unfolding get_docker_client
  get_docker_client-Keeps w = with_new_client-Keeps _ _

  pub get_px_containers-Keeps : Keeps (get_px_containers answers)
  unfolding get_px_containers
  get_px_containers-Keeps w = refl

  after_mount-Keeps : (stderr : Bytes) (e : Error) → Keeps (after_mount answers stderr e)
  after_mount-Keeps stderr none w = refl
  after_mount-Keeps stderr (some message) w = refl

  pub enable_shared_mounts-Keeps : Keeps (enable_shared_mounts answers)
  unfolding enable_shared_mounts
  enable_shared_mounts-Keeps w = after_mount-Keeps _ _ _

  after_removal-Keeps : (c : Container) (e : Error) → Keeps (after_removal answers c e)
  after_removal-Keeps c none w = refl
  after_removal-Keeps c (some message) w = refl

  after_stop-Keeps : (c : Container) (e : Error) → Keeps (after_stop answers c e)
  after_stop-Keeps c none w = after_removal-Keeps c _ _
  after_stop-Keeps c (some message) w = refl

  stop_all-Keeps : (cs : List Container) → Keeps (stop_all answers cs)
  unfolding stop_all
  stop_all-Keeps [] w = refl
  stop_all-Keeps (c ∷ cs) w =
      continue-Keeps (after_stop answers c (answers.stopped w.calls c.id) _) _ w.stdout
        (after_stop-Keeps c _ _) (λ _. stop_all-Keeps cs)

  after_kill-Keeps : (c : Container) (e : Error) → Keeps (after_kill answers c e)
  after_kill-Keeps c none w = after_removal-Keeps c _ _
  after_kill-Keeps c (some message) w = refl

  kill_all-Keeps : (cs : List Container) → Keeps (kill_all answers cs)
  unfolding kill_all
  kill_all-Keeps [] w = refl
  kill_all-Keeps (c ∷ cs) w =
      continue-Keeps (after_kill answers c (answers.killed w.calls c.id) _) _ w.stdout
        (after_kill-Keeps c _ _) (λ _. kill_all-Keeps cs)

  stop_listed-Keeps : (cs : Result Bytes (List Container)) → Keeps (stop_listed answers cs)
  stop_listed-Keeps (err message) w = refl
  stop_listed-Keeps (ok cs) w = stop_all-Keeps cs w

  kill_listed-Keeps : (cs : Result Bytes (List Container)) → Keeps (kill_listed answers cs)
  kill_listed-Keeps (err message) w = refl
  kill_listed-Keeps (ok cs) w =
      continue-Keeps (kill_all answers cs w) _ w.stdout (kill_all-Keeps cs w) (λ _ w'. refl)

  term_with_client-Keeps : (d : Result Bytes (Unit {0})) → Keeps (term_with_client answers d)
  term_with_client-Keeps (err message) w = refl
  term_with_client-Keeps (ok u) w =
      continue-Keeps (get_px_containers answers w) _ w.stdout (get_px_containers-Keeps w)
        stop_listed-Keeps

  kill_with_client-Keeps : (d : Result Bytes (Unit {0})) → Keeps (kill_with_client answers d)
  kill_with_client-Keeps (err message) w = refl
  kill_with_client-Keeps (ok u) w =
      continue-Keeps (get_px_containers answers w) _ w.stdout (get_px_containers-Keeps w)
        kill_listed-Keeps

  pub handle_signal-Keeps : (sig : Signal) (name : Bytes) → Keeps (handle_signal answers sig name)
  unfolding handle_signal handler_sig_term handler_sig_kill
  handle_signal-Keeps sig_term name w =
      continue-Keeps (get_docker_client answers w) _ w.stdout (get_docker_client-Keeps w)
        term_with_client-Keeps
  handle_signal-Keeps sig_kill name w =
      continue-Keeps (get_docker_client answers w) _ w.stdout (get_docker_client-Keeps w)
        kill_with_client-Keeps
  handle_signal-Keeps other_signal name w = refl
