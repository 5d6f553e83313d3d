-- ===== src/Launcher/Install.antt =====
-- `install` of px-mon/px-mon.go.
pub mod Running
pub mod Restored
use px_installer.Base.{
  ℕ, zero, suc, Bool, true, false, not, ◌&&◌, none, some, List, [], ◌∷◌, ◌++◌, if◌then◌else◌, ◌==◌,
  Bytes, lit, str_eq, length, contains,
}
use px_installer.Base.Result.{Result, ok, err}
use px_installer.World.{Error}
use px_installer.World.Monad.{pure, modify, get, ◌>>=◌, ◌>>◌}
use px_installer.Launcher.{
  Answers, Container, ContainerOptions, Mon, Output, Run, pipe, remove_container, open_pipe,
  close_pipe, pull_image, docker_info, create_container, start_container, request, print, println,
  px_image, px_image_tag, px_container_name, shown, get_docker_client, get_px_containers,
}

abbrev pub onto_first : ℕ → List Bytes → List Bytes
onto_first c [] = (c ∷ []) ∷ []
onto_first c (line ∷ lines) = (c ∷ line) ∷ lines

-- `strings.Split(s, "\n")`
unfoldable pub split_lines : Bytes → List Bytes
split_lines [] = [] ∷ []
split_lines (c ∷ s) = let rest = split_lines s in if c == 10 then [] ∷ rest else onto_first c rest

abbrev pub spaces : Bytes → Bytes
spaces [] = []
spaces (c ∷ s) = b' ' ∷ spaces s

abbrev pub is_empty_line : Bytes → Bool
is_empty_line [] = true
is_empty_line (c ∷ line) = false

-- One line over the one before it, which is blanked out first.
abbrev pub over : Bytes → Bytes → Bytes
over pline line =
    if is_empty_line line
    then []
    else (if is_empty_line pline then [] else 13 ∷ spaces pline) ++ (13 ∷ line)

-- What the loop over the lines of a pull prints, in one piece.
unfoldable pub progress : Bytes → List Bytes → Bytes
progress pline [] = []
progress pline (line ∷ lines) = over pline line ++ progress line lines

-- What became of the containers that were there.
pub data Existing : Type 0 where
  all_removed already_running : Existing
  not_removed : Bytes → Existing

-- Where the headers of the kernel are.
unfoldable pub headers_dir : Bytes → Bytes
headers_dir kernel_version =
    if contains kernel_version (lit "coreos") then lit "/lib/modules" else lit "/usr/src"

unfoldable pub px_options : List Bytes → Bytes → ContainerOptions
px_options args hdrs = record {
  name = px_container_name;
  image = px_image ++ (lit ":" ++ px_image_tag);
  cmd = args;
  restart_policy = lit "unless-stopped";
  network_mode = lit "host";
  privileged = true;
  ipc_mode = lit "host";
  binds =
      lit "/run/docker/plugins:/run/docker/plugins"
      ∷ lit "/var/lib/osd:/var/lib/osd:shared"
      ∷ lit "/dev:/dev"
      ∷ lit "/etc/pwx:/etc/pwx"
      ∷ lit "/opt/pwx/bin:/export_bin:shared"
      ∷ lit "/var/run/docker.sock:/var/run/docker.sock"
      ∷ lit "/var/cores:/var/cores"
      ∷ (hdrs ++ (lit ":" ++ hdrs))
      ∷ [];
}

module _ (answers : Answers) (args : List Bytes) where
  abbrev pub set_stdout : Output → Run (Unit {0})
  set_stdout o = modify (λ w. record w { stdout = o })

  abbrev pub fail : Bytes → Bytes → Run Error
  fail text message = do println (text ∷ message ∷ []); pure (some message)

  abbrev pub after_start : Error → Run Error
  after_start (some message) =
      fail (lit "Warning, could not start the Portworx container: ") message
  after_start none = do println (lit "Install Done.  Portworx monitor running." ∷ []); pure none

  abbrev pub after_create : Result Bytes Bytes → Run Error
  after_create (err message) =
      fail (lit "Warning, could not create the Portworx container: ") message
  after_create (ok id) = do
    e ← request (start_container id) (λ calls. answers.started calls id)
    after_start e

  abbrev pub after_info : Result Bytes Bytes → Run Error
  after_info (err message) = do
    print (lit "Failed to get docker info. Err: " ++ (message ++ lit "\n"))
    pure (some message)
  after_info (ok kernel_version) = do
    created ←
        request (create_container (px_options args (headers_dir kernel_version))) answers.created
    after_create created

  unfoldable pub start_px : Run Error
  start_px = do
    println (lit "Starting Portworx..." ∷ [])
    info ← request docker_info answers.kernel_version
    after_info info

  -- A failed pull returns at once: the pipe stays open, and stays the standard output.
  abbrev pub after_pull : Output → Bytes → Error → Run Error
  after_pull orig_stdout output (some message) = do
    println (lit "Could not connect to Docker... is Docker running on this host?" ∷ [])
    pure (some message)
  after_pull orig_stdout output none = do
    request close_pipe (λ calls. tt)
    set_stdout orig_stdout
    print (progress [] (split_lines output) ++ lit "\n")
    start_px

  abbrev pub with_pipe : Output → Error → Run Error
  with_pipe orig_stdout (some message) = do
    print (lit "Failed to get os Pipe. Err: " ++ message)
    pure (some message)
  with_pipe orig_stdout none = do
    set_stdout pipe
    r ←
        request
          (pull_image px_image px_image_tag (answers.getenv (lit "REGISTRY_USER"))
            (answers.getenv (lit "REGISTRY_PASS")))
          answers.pulled
    after_pull orig_stdout r.output r.error

  unfoldable pub pull_and_start : Run Error
  pull_and_start = do
    println (lit "Downloading Portworx..." ∷ [])
    orig_stdout ← get Mon.stdout
    e ← request open_pipe answers.piped
    with_pipe orig_stdout e

  abbrev pub after_existing : Error → Run Existing → Run Existing
  after_existing none rest = rest
  after_existing (some message) rest = do
    println (lit "Could not remove existing Portworx container: " ∷ message ∷ [])
    pure (not_removed message)

  abbrev pub stop_or_remove : Container → Bool → Run Existing → Run Existing
  stop_or_remove c true rest = do
    print (lit "px container: " ++ (shown c ++ lit " is already running.\n"))
    pure already_running
  stop_or_remove c false rest = do
    e ← request (remove_container c.id false) (λ calls. answers.removed calls c.id)
    after_existing e rest

  -- The loop ends at the first container that runs.
  unfoldable pub clear_existing : List Container → Run Existing
  clear_existing [] = pure all_removed
  clear_existing (c ∷ cs) = do
    print (lit "Found existing px container: " ++ (shown c ++ lit "\n"))
    stop_or_remove c (str_eq c.state (lit "running")) (clear_existing cs)

  abbrev pub unless_running : Existing → Run Error
  unless_running all_removed = pull_and_start
  unless_running already_running = pure none
  unless_running (not_removed message) = pure (some message)

  abbrev pub with_containers : Result Bytes (List Container) → Run Error
  with_containers (err message) = pure (some message)
  with_containers (ok cs) = do existing ← clear_existing cs; unless_running existing

  abbrev pub with_docker : Result Bytes (Unit {0}) → Run Error
  with_docker (err message) = do
    print (lit "Failed to get docker client. Err: " ++ (message ++ lit "\n"))
    pure (some message)
  with_docker (ok u) = do cs ← get_px_containers answers; with_containers cs

  unfoldable pub install : Run Error
  install = do docker ← get_docker_client answers; with_docker docker
