-- ===== src/Monitor/Frame/Docker.antt =====
-- The pull of an image and the run of a container.
use px_installer.Base.{none, some, List, Bytes, take, contains, if◌then◌else◌}
use px_installer.Base.Result.{Result, ok, err}
use px_installer.World.{Error, Env, World, Stream, pull_image}
use px_installer.World.Monad.{M, pure, ◌>>=◌}
use px_installer.Docker.LogReader.{LogEnd, all_read, failed, panicked, no_fuel, docker_log_reader}
use px_installer.Docker.Pull.{
  FirstRead, full, some_bytes, read_error, first_read, copy_rest, pull_stream, pulled_stream,
  pull_image_cb, docker_download_msg,
}
use px_installer.Docker.RunOnce.{
  log_report, read_logs, wait_for, after_start, after_create, run_once,
}
use px_installer.Monitor.Frame.{IsFrame, Keeps, bind-Keeps, if-Keeps}

module _ {holds : World → Type 0} (frame : IsFrame holds) (env : Env) where
  copy_rest-Keeps : (s : Stream) (e : Error) → Keeps holds (copy_rest env s e)
  copy_rest-Keeps s none w h = h
  copy_rest-Keeps s (some m) w h = h

  first_read-Keeps :
      (cb : M Error) (s : Stream) (r : FirstRead)
      → Keeps holds cb
      → Keeps holds (elim r [
        | full ↦ (do
          e ← (if contains (take 512 s.content) docker_download_msg then cb else pure none)
          copy_rest env s e)
        | some_bytes ↦ pure none
        | read_error message ↦ pure (some message)
      ])
  first_read-Keeps cb s full k w h =
      bind-Keeps (if contains (take 512 s.content) docker_download_msg then cb else pure none) _
        (if-Keeps _ cb _ k (λ w h. h)) (copy_rest-Keeps s) w h
  first_read-Keeps cb s some_bytes k w h = h
  first_read-Keeps cb s (read_error m) k w h = h

  pulled_stream-Keeps :
      (cb : M Error) (r : Result Bytes Stream)
      → Keeps holds cb
      → Keeps holds (pulled_stream env cb r)
  unfolding pull_stream
  pulled_stream-Keeps cb (err m) k w h = h
  pulled_stream-Keeps cb (ok s) k w h = first_read-Keeps cb s (first_read s) k w h

  pub pull_image_cb-Keeps :
      (name : Bytes) (cb : M Error) → Keeps holds cb → Keeps holds (pull_image_cb env name cb)
  unfolding pull_image_cb
  pull_image_cb-Keeps name cb k w h =
      pulled_stream-Keeps cb (env.pulled w.events name) k _ (frame.logged (pull_image name) w h)

  log_report-Keeps : (r : LogEnd) → Keeps holds (log_report env r)
  unfolding log_report
  log_report-Keeps (all_read out) w h = h
  log_report-Keeps (failed m out) w h = h
  log_report-Keeps (panicked out) w h = h
  log_report-Keeps (no_fuel out) w h = h

  read_logs-Keeps : (r : Result Bytes (List (Result Bytes Bytes))) → Keeps holds (read_logs env r)
  read_logs-Keeps (err m) w h = h
  read_logs-Keeps (ok pieces) w h = log_report-Keeps (docker_log_reader pieces) w h

  wait_for-Keeps : (name id : Bytes) → Keeps holds (wait_for env name id)
  unfolding wait_for
  wait_for-Keeps name id w h =
      bind-Keeps (read_logs env (env.logs w.events id)) _ (read_logs-Keeps _)
        (λ _ w h. frame.logged _ w h) _ (frame.logged _ w h)

  after_start-Keeps : (name id : Bytes) (e : Error) → Keeps holds (after_start env name id e)
  after_start-Keeps name id none w h = wait_for-Keeps name id w h
  after_start-Keeps name id (some m) w h = h

  after_create-Keeps :
      (name : Bytes) (r : Result Bytes Bytes) → Keeps holds (after_create env name r)
  after_create-Keeps name (err m) w h = h
  after_create-Keeps name (ok id) w h = after_start-Keeps name id _ _ (frame.logged _ w h)

  pub run_once-Keeps :
      (name cntr : Bytes) (params : List Bytes) → Keeps holds (run_once env name cntr params)
  unfolding run_once
  run_once-Keeps name cntr params w h =
      after_create-Keeps name _ _ (frame.logged _ _ (frame.logged _ w h))
