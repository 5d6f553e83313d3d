-- ===== src/Monitor/Install/Cordon.antt =====
-- Whether the run of the installer container asks for a drain of the node.
use px_installer.Base.{
  ℕ, ◌+◌, ◌^◌, ◌<◌, Bool, true, none, List, ◌∷◌, ◌≡◌, refl, All, Bytes, lit, length, contains, ◌==◌,
  if◌then◌else◌, Bool-cases, inl, inr,
}
use px_installer.Base.Result.{ok}
use px_installer.World.{
  Env, Event, World, remove_container, create_container, start_container, container_logs,
  wait_container,
}
use px_installer.World.Monad.{ret, exited}
use px_installer.Docker.LogReader.Frames.{Frame, pieces_of, rendered, docker_log_reader-frames}
use px_installer.Docker.RunOnce.{log_report, wait_for, run_once}
use px_installer.Monitor.Install.{installer_params, run_installer}

module _ (env : Env) (debugs_on : Bool) (os_args : List Bytes) (image id : Bytes) (w : World) where
  -- The events before each answer of the run.
  abbrev pub at_create : List Event
  at_create = remove_container (lit "px-oci-installer") ∷ w.events

  abbrev pub at_start : List Event
  at_start = create_container image (installer_params env debugs_on os_args) ∷ at_create

  abbrev pub at_log : List Event
  at_log = start_container id ∷ at_start

  abbrev pub at_wait : List Event
  at_wait = container_logs id ∷ at_log

  -- If the container is created, started and waited for, and its log arrives read by read as the
  -- whole headers and payloads of well-formed frames, the install needs a cordoned node exactly if
  -- the text of these frames says that a reboot is required; a status of the container other than 0
  -- ends the process with status 1. A frame that arrives in two reads is not covered.
  pub run_installer-contains :
      (frames : List Frame) (code : ℕ)
      → All (λ f. length (Frame.payload f) + 2 < 2 ^ 32) frames
      → env.created at_create image ≡ ok id
      → env.started at_start id ≡ none
      → env.logs at_log id ≡ ok (pieces_of frames)
      → env.waited at_wait id ≡ ok code
      → run_installer env debugs_on os_args image true w ≡ (
        (if code == 0 then ret (contains (rendered frames) (lit " require reboot ")) else exited 1),
        record w { events = wait_container id ∷ at_wait },
      )
  unfolding run_installer run_once wait_for log_report
  run_installer-contains frames code small created started logs waited =
      elim (Bool-cases (code == 0)) [
        | inl zero_status ↦
            rw (created, started, logs, docker_log_reader-frames frames small, waited, zero_status)
              refl
        | inr failed ↦
            rw (created, started, logs, docker_log_reader-frames frames small, waited, failed) refl
      ]
