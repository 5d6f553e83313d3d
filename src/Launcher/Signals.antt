-- ===== src/Launcher/Signals.antt =====
-- The signal handlers of px-mon/px-mon.go.
pub mod Order
use px_installer.Base.{Bool, true, false, Option, none, some, List, [], ◌∷◌, ◌++◌, Bytes, lit}
use px_installer.Base.Result.{Result, ok, err}
use px_installer.World.{Error}
use px_installer.World.Monad.{pure, exit, ◌>>=◌, ◌>>◌}
use px_installer.Launcher.{
  Answers, Container, Run, stop_container, kill_container, remove_container, request, print, shown,
  get_docker_client, get_px_containers,
}

-- The signals that have a handler, and the rest.
pub data Signal : Type 0 where
  sig_term sig_kill : Signal
  other_signal : Signal

module _ (answers : Answers) where
  abbrev pub say : Bytes → Container → Bytes → Run (Unit {0})
  say before c after = print (before ++ (lit " px container: " ++ (shown c ++ after)))

  abbrev pub no_client : Bytes → Run (Unit {0})
  no_client message = print (lit "Failed to get docker client. Err: " ++ (message ++ lit "\n"))

  abbrev pub after_removal : Container → Error → Run (Unit {0})
  after_removal c (some message) =
      print (lit "Failed to remove px container. Err: " ++ (message ++ lit "\n"))
  after_removal c none = say (lit "Removed") c (lit " succesfully\n")

  abbrev pub remove_halted : Bool → Container → Run (Unit {0})
  remove_halted force c = do
    say (lit "Removing") c (lit "\n")
    e ← request (remove_container c.id force) (λ calls. answers.removed calls c.id)
    after_removal c e

  abbrev pub after_stop : Container → Error → Run (Unit {0})
  after_stop c (some message) =
      print (lit "Failed to stop px container. Err: " ++ (message ++ lit "\n"))
  after_stop c none = do say (lit "Stopped") c (lit " succesfully\n"); remove_halted false c

  unfoldable pub stop_all : List Container → Run (Unit {0})
  stop_all [] = pure tt
  stop_all (c ∷ cs) = do
    say (lit "Stopping") c (lit "\n")
    e ← request (stop_container c.id 30) (λ calls. answers.stopped calls c.id)
    after_stop c e
    stop_all cs

  abbrev pub stop_listed : Result Bytes (List Container) → Run (Unit {0})
  stop_listed (err message) = pure tt
  stop_listed (ok cs) = stop_all cs

  abbrev pub term_with_client : Result Bytes (Unit {0}) → Run (Unit {0})
  term_with_client (err message) = no_client message
  term_with_client (ok u) = do cs ← get_px_containers answers; stop_listed cs

  -- `handlerSigTerm`
  unfoldable pub handler_sig_term : Run (Unit {0})
  handler_sig_term = do docker ← get_docker_client answers; term_with_client docker

  abbrev pub after_kill : Container → Error → Run (Unit {0})
  after_kill c (some message) =
      print (lit "Failed to kill px container. Err: " ++ (message ++ lit "\n"))
  after_kill c none = do say (lit "Killing") c (lit " succesfully\n"); remove_halted true c

  unfoldable pub kill_all : List Container → Run (Unit {0})
  kill_all [] = pure tt
  kill_all (c ∷ cs) = do
    say (lit "Killing") c (lit "\n")
    e ← request (kill_container c.id) (λ calls. answers.killed calls c.id)
    after_kill c e
    kill_all cs

  abbrev pub kill_listed : Result Bytes (List Container) → Run (Unit {0})
  kill_listed (err message) = pure tt
  kill_listed (ok cs) = do kill_all cs; exit 0

  abbrev pub kill_with_client : Result Bytes (Unit {0}) → Run (Unit {0})
  kill_with_client (err message) = no_client message
  kill_with_client (ok u) = do cs ← get_px_containers answers; kill_listed cs

  -- `handlerSigKill`
  unfoldable pub handler_sig_kill : Run (Unit {0})
  handler_sig_kill = do docker ← get_docker_client answers; kill_with_client docker

  -- `handlersMap` of `main`
  abbrev pub handlers : Signal → Option (Run (Unit {0}))
  handlers sig_term = some handler_sig_term
  handlers sig_kill = some handler_sig_kill
  handlers other_signal = none

  -- What the goroutine of a signal runs, without the address of the handler that it prints.
  unfoldable pub handle_signal : Signal → Bytes → Run (Unit {0})
  handle_signal sig name = elim (handlers sig) [
    | some handler ↦ handler
    | none ↦ print (lit "signal: " ++ (name ++ lit " - no signal handler function.\n"))
  ]
