-- ===== src/Launcher.antt =====
-- px-mon/px-mon.go: the container that installs Portworx as a container of its own, and ends that
-- container when it is ended itself. Here stand its surroundings and what both halves share.
pub mod Rounds
pub mod Signals
pub mod Install
pub mod Process
pub mod Stdout
use px_installer.Base.{ℕ, Bool, Option, none, some, List, [], ◌∷◌, ◌++◌, Bytes, lit, join}
use px_installer.Base.Result.{Result, ok, err}
use px_installer.World.{Error, Ran}
use px_installer.World.Monad.{Program, pure, modify, ◌>>=◌, ◌>>◌}

-- The fields of `dockerclient.APIContainers` that are looked at.
pub record Container : Type 0 where
  pub id : Bytes
  pub names : List Bytes
  pub state : Bytes

-- `CreateContainerOptions` with its `Config` and `HostConfig`.
pub record ContainerOptions : Type 0 where
  pub name : Bytes
  pub image : Bytes
  pub cmd : List Bytes
  pub restart_policy : Bytes
  pub network_mode : Bytes
  pub privileged : Bool
  pub ipc_mode : Bytes
  pub binds : List Bytes

-- What `os.Stdout` writes to.
pub data Output : Type 0 where
  terminal pipe : Output

-- The calls of Docker, of the host and of the system.
pub data Call : Type 0 where
  new_client : Bytes → Call
  ping docker_info open_pipe close_pipe : Call
  -- the image that the containers descend from
  list_containers : Bytes → Call
  stop_container : Bytes → ℕ → Call
  kill_container : Bytes → Call
  -- with the flag `Force`
  remove_container : Bytes → Bool → Call
  -- repository, tag, user and password
  pull_image : Bytes → Bytes → Bytes → Bytes → Call
  create_container : ContainerOptions → Call
  start_container : Bytes → Call
  run_command : List Bytes → Call

-- The answers, each from the calls before it (the newest first).
pub record Answers : Type 0 where
  pub connected : List Call → Error
  pub pinged : List Call → Error
  pub listed : List Call → Result Bytes (List Container)
  pub stopped : List Call → Bytes → Error
  pub killed : List Call → Bytes → Error
  pub removed : List Call → Bytes → Error
  pub piped : List Call → Error
  -- what a pull writes to its output stream, and its error
  pub pulled : List Call → Ran
  pub kernel_version : List Call → Result Bytes Bytes
  pub created : List Call → Result Bytes Bytes
  pub started : List Call → Bytes → Error
  -- what a command writes to its standard error, and its error
  pub ran : List Call → List Bytes → Ran
  pub getenv : Bytes → Bytes
  -- the verb %v on a `bytes.Buffer`
  pub shown_buffer : Bytes → Bytes

pub record Mon : Type 0 where
  pub calls : List Call
  pub stdout : Output
  -- what was printed, and to where (the newest first)
  pub printed : List (Output × Bytes)

abbrev pub Run : Type 0 → Type 0
Run A = Program Mon A

abbrev pub request : {A : Type 0} → Call → (List Call → A) → Run A
request c answer w = pure (answer w.calls) (record w { calls = c ∷ w.calls })

abbrev pub print : Bytes → Run (Unit {0})
print text = modify (λ w. record w { printed = (w.stdout, text) ∷ w.printed })

-- `fmt.Println`
abbrev pub println : List Bytes → Run (Unit {0})
println words = print (join (lit " ") words ++ lit "\n")

abbrev pub px_image : Bytes
px_image = lit "portworx/px-enterprise"

abbrev pub px_image_tag : Bytes
px_image_tag = lit "latest"

abbrev pub px_container_name : Bytes
px_container_name = lit "px"

-- How the messages name a container: `%v (%v)` of its names and its ID.
abbrev pub shown : Container → Bytes
shown c = lit "[" ++ (join (lit " ") c.names ++ (lit "] (" ++ (c.id ++ lit ")")))

-- The command that makes the mounts of the host shared.
abbrev pub mount_command : List Bytes
mount_command =
    lit "nsenter"
    ∷ lit "--mount=/media/host/proc/1/ns/mnt"
    ∷ lit "--"
    ∷ lit "mount"
    ∷ lit "--make-shared"
    ∷ lit "/"
    ∷ []

module _ (answers : Answers) where
  abbrev pub checked : Error → Run (Result Bytes (Unit {0}))
  checked none = pure (ok tt)
  checked (some message) = do
    println (lit "Could not connect to Docker... is Docker running on this host? " ∷ message ∷ [])
    pure (err message)

  abbrev pub with_new_client : Error → Run (Result Bytes (Unit {0}))
  with_new_client (some message) = checked (some message)
  with_new_client none = do e ← request ping answers.pinged; checked e

  -- `getDockerClient`
  unfoldable pub get_docker_client : Run (Result Bytes (Unit {0}))
  get_docker_client = do
    e ← request (new_client (lit "unix:///var/run/docker.sock")) answers.connected
    with_new_client e

  -- `getPxContainers`: its message is made by `fmt.Errorf` and is never printed.
  unfoldable pub get_px_containers : Run (Result Bytes (List Container))
  get_px_containers =
      request (list_containers (px_image ++ (lit ":" ++ px_image_tag))) answers.listed

  abbrev pub after_mount : Bytes → Error → Run Error
  after_mount stderr (some message) = do
    print (
        lit "Failed to enable shared mounts. Err: "
        ++ (message ++ (lit " Stderr: " ++ (answers.shown_buffer stderr ++ lit "\n"))))
    pure (some message)
  after_mount stderr none = do println (lit "Enabled shared mounts succesfully" ∷ []); pure none

  -- `enableSharedMounts`
  unfoldable pub enable_shared_mounts : Run Error
  enable_shared_mounts = do
    r ← request (run_command mount_command) (λ calls. answers.ran calls mount_command)
    after_mount r.output r.error
