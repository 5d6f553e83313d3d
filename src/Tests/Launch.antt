-- ===== src/Tests/Launch.antt =====
-- Runs of the launcher on a host with two containers.
use px_installer.Base.{
  true, false, none, some, List, [], ◌∷◌, ◌≡◌, refl, subst, if◌then◌else◌, lit, str_eq,
}
use px_installer.Base.Result.{ok}
use px_installer.World.{Ran}
use px_installer.World.Monad.{ret, exited}
use px_installer.Launcher.{
  Answers, Container, Mon, pipe, terminal, get_docker_client, get_px_containers,
  enable_shared_mounts,
}
use px_installer.Launcher.Signals.{handler_sig_term, handler_sig_kill, handle_signal, sig_term}
use px_installer.Launcher.Signals.Order.{
  StopRounds, KillRounds, Lists, handler_sig_term-StopRounds, handler_sig_kill-KillRounds,
}
use px_installer.Launcher.Install.{
  all_removed, pull_and_start, start_px, split_lines, progress, clear_existing, install,
}
use px_installer.Launcher.Install.Running.{is_running, removals, install-running}
use px_installer.Launcher.Install.Restored.{install-failed_pull}
use px_installer.Launcher.Process.{main}
use px_installer.Launcher.Process.Steps.{
  waiting, process_of, Reach, IsRestored, signalled, launched, stepped, Reach-IsRestored,
}

abbrev old_px : Container
old_px = record { id = lit "0a"; names = lit "/px_old" ∷ []; state = lit "exited" }

abbrev running_px : Container
running_px = record { id = lit "1b"; names = lit "/px" ∷ []; state = lit "running" }

-- A host where everything succeeds, but the old container cannot be stopped or killed.
abbrev host_of : List Container → Ran → Answers
host_of containers pull = record {
  connected = λ calls. none;
  pinged = λ calls. none;
  listed = λ calls. ok containers;
  stopped = λ calls id. if str_eq id (lit "0a") then some (lit "not running") else none;
  killed = λ calls id. if str_eq id (lit "0a") then some (lit "not running") else none;
  removed = λ calls id. none;
  piped = λ calls. none;
  pulled = λ calls. pull;
  kernel_version = λ calls. ok (lit "4.14-coreos");
  created = λ calls. ok (lit "2c");
  started = λ calls id. none;
  ran = λ calls command. record { output = []; error = none };
  getenv = λ name. [];
  shown_buffer = λ content. content;
}

abbrev good_pull : Ran
good_pull = record { output = lit "pulled"; error = none }

abbrev bad_pull : Ran
bad_pull = record { output = []; error = some (lit "no route to host") }

abbrev begin : Mon
begin = record { calls = []; stdout = terminal; printed = [] }

abbrev both : List Container
both = old_px ∷ running_px ∷ []

abbrev busy : Answers
busy = host_of both good_pull

abbrev listed_by : Answers → Mon
listed_by answers = (get_px_containers answers (get_docker_client answers begin).1).1

busy-Lists : Lists busy begin both (listed_by busy)
unfolding get_docker_client get_px_containers
busy-Lists = ((get_docker_client busy begin).1, refl, refl)

handler_sig_term-StopRounds_example :
    ((handler_sig_term busy begin).0 ≡ ret tt)
    × StopRounds busy both (listed_by busy).calls (handler_sig_term busy begin).1.calls
handler_sig_term-StopRounds_example =
    handler_sig_term-StopRounds busy both begin (listed_by busy) busy-Lists

handler_sig_kill-KillRounds_example :
    ((handler_sig_kill busy begin).0 ≡ exited 0)
    × KillRounds busy both (listed_by busy).calls (handler_sig_kill busy begin).1.calls
handler_sig_kill-KillRounds_example =
    handler_sig_kill-KillRounds busy both begin (listed_by busy) busy-Lists

old_px-idle : is_running old_px ≡ false
unfolding str_eq lit
old_px-idle = refl

running_px-is_running : is_running running_px ≡ true
unfolding str_eq lit
running_px-is_running = refl

install-running_example :
    ((install busy (lit "-c" ∷ []) begin).0 ≡ ret none)
    × ((install busy (lit "-c" ∷ []) begin).1.calls
        ≡ removals busy (lit "-c" ∷ []) (old_px ∷ []) (listed_by busy).calls)
install-running_example =
    install-running busy (lit "-c" ∷ []) (old_px ∷ []) running_px [] begin (listed_by busy)
      busy-Lists (old_px-idle, tt) (refl, tt) running_px-is_running

abbrev cut_off : Answers
cut_off = host_of (old_px ∷ []) bad_pull

abbrev cleared : Mon
cleared = (clear_existing cut_off [] (old_px ∷ []) (listed_by cut_off)).1

cut_off-Lists : Lists cut_off begin (old_px ∷ []) (listed_by cut_off)
unfolding get_docker_client get_px_containers
cut_off-Lists = ((get_docker_client cut_off begin).1, refl, refl)

cut_off-cleared :
    clear_existing cut_off [] (old_px ∷ []) (listed_by cut_off) ≡ (ret all_removed, cleared)
unfolding clear_existing str_eq lit
cut_off-cleared = refl

install-failed_pull_example :
    ((install cut_off [] begin).0 ≡ ret (some (lit "no route to host")))
    × ((install cut_off [] begin).1.stdout ≡ pipe)
install-failed_pull_example =
    install-failed_pull cut_off [] (old_px ∷ []) begin (listed_by cut_off) cleared
      (lit "no route to host") cut_off-Lists cut_off-cleared refl refl

abbrev fresh : Answers
fresh = host_of (old_px ∷ []) good_pull

abbrev started : Mon
started = (main fresh [] begin).1

fresh-waits : process_of (main fresh [] begin) ≡ waiting started
unfolding main install get_docker_client get_px_containers clear_existing pull_and_start start_px
    split_lines progress enable_shared_mounts str_eq lit
fresh-waits = refl

-- The process waits behind its start, and behind a SIGTERM.
Reach-IsRestored_example :
    IsRestored fresh [] begin (process_of (handle_signal fresh sig_term [] started))
Reach-IsRestored_example =
    Reach-IsRestored fresh [] begin (process_of (handle_signal fresh sig_term [] started)) (
      stepped _ _ (subst (Reach fresh [] begin) fresh-waits launched)
        (signalled sig_term [] started))
