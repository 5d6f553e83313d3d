-- ===== src/Docker/RunOnce.antt =====
-- `RunOnce`: create a container, start it, read its log and wait for its end.
use px_installer.Base.{ℕ, Option, none, some, List, ◌++◌, if◌then◌else◌, Bytes, lit, ◌==◌}
use px_installer.Base.Result.{Result, ok, err}
use px_installer.World.{
  Error, Env, remove_container, create_container, start_container, container_logs, wait_container,
}
use px_installer.World.Monad.{M, pure, exit, ◌>>=◌, ◌>>◌, ask}
use px_installer.Docker.LogReader.{LogEnd, all_read, failed, panicked, no_fuel, docker_log_reader}

-- What `lproc` is called with: the log so far, and the error of its reader.
abbrev pub LogReport : Type 0
LogReport = Bytes × Error

-- `decimal` writes a number for %d.
abbrev pub exit_error : (ℕ → Bytes) → Bytes → Bytes → Result Bytes ℕ → Error
exit_error decimal name id (err message) =
    some (
      lit "Error while running container "
      ++ (id ++ (lit " [" ++ (name ++ (lit "]: " ++ message)))))
exit_error decimal name id (ok code) =
    if code == 0 then none else some (lit "Expected status code '0', got " ++ decimal code)

module _ (env : Env) where
  -- A panic of the reader ends the process with status 2.
  unfoldable pub log_report : LogEnd → M (Option LogReport)
  log_report (all_read out) = pure (some (out, none))
  log_report (failed message out) = pure (some (out, some message))
  log_report (panicked out) = exit 2
  log_report (no_fuel out) = exit 2

  -- If the log cannot be asked for, `lproc` is not called.
  abbrev pub read_logs : Result Bytes (List (Result Bytes Bytes)) → M (Option LogReport)
  read_logs (err message) = pure none
  read_logs (ok pieces) = log_report (docker_log_reader pieces)

  unfoldable pub wait_for : Bytes → Bytes → M (Error × Option LogReport)
  wait_for name id = do
    log ← ask (container_logs id) (λ events. env.logs events id)
    report ← read_logs log
    result ← ask (wait_container id) (λ events. env.waited events id)
    pure (exit_error env.decimal name id result, report)

  abbrev pub after_start : Bytes → Bytes → Error → M (Error × Option LogReport)
  after_start name id (some message) = pure (
    some (
        lit "Could not start container " ++ (id ++ (lit " [" ++ (name ++ (lit "]: " ++ message))))),
    none,
  )
  after_start name id none = wait_for name id

  abbrev pub after_create : Bytes → Result Bytes Bytes → M (Error × Option LogReport)
  after_create name (err message) =
      pure (some (lit "Could not create container " ++ (name ++ (lit ": " ++ message))), none)
  after_create name (ok id) = do
    e ← ask (start_container id) (λ events. env.started events id)
    after_start name id e

  -- The error, and what the log callback got, if it was called. `params` are the binds, the
  -- entrypoint and the arguments of the new container.
  unfoldable pub run_once : Bytes → Bytes → List Bytes → M (Error × Option LogReport)
  unfolding wait_for log_report
  run_once name cntr params = do
    ask (remove_container cntr) (λ _. tt)
    created ← ask (create_container name params) (λ events. env.created events name)
    after_create name created
