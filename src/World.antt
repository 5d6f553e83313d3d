-- ===== src/World.antt =====
-- The monitor's surroundings. What the program does outside itself is an event; what comes back is
-- a function of the events so far, so the surroundings may change at each of them.
pub mod Monad
pub mod Returns
use px_installer.Base.{ℕ, Bool, Option, none, some, List, Bytes}
use px_installer.Base.Result.{Result}

-- Go's `error` where it stands alone: nil, or a message.
abbrev pub Error : Type 0
Error = Option Bytes

-- The fields of `v1.Pod` and `v1.Node` that are looked at.
pub record Pod : Type 0 where
  pub namespace : Bytes
  pub name : Bytes

pub record Node : Type 0 where
  pub node_name : Bytes
  pub labels : List (Bytes × Bytes)

-- The fields of `types.MountPoint` and `types.ContainerJSON` that are looked at.
pub record MountPoint : Type 0 where
  pub source : Bytes
  pub destination : Bytes
  pub propagation : Bytes
  pub rw : Bool

pub record ContainerJson : Type 0 where
  pub args : List Bytes
  pub mounts : List MountPoint
  pub hosts_path : Bytes
  pub resolv_conf_path : Bytes
  pub env_list : List Bytes
  pub container_labels : List (Bytes × Bytes)

-- What a reader gives in all: bytes, then the end or an error.
pub record Stream : Type 0 where
  pub content : Bytes
  pub fails : Error

-- `installState` of px-oci-mon/utils/servlet.go.
pub data InstallState : Type 0 where
  unknown installing finished : InstallState

-- What the process does to its surroundings, and what it asks of them.
pub data Event : Type 0 where
  -- a command, run to its end
  exec : List Bytes → Event
  stat remove_all mkdir_all : Bytes → Event
  sync : Event
  -- a goroutine that removes directories
  launch_removal : List Bytes → Event
  -- calls of the Kubernetes API
  find_my_node : Event
  get_pods cordon uncordon watch_node : Bytes → Event
  drain : Bytes → List Pod → Event
  add_label : Bytes → Bytes → Bytes → Event
  remove_label : Bytes → Bytes → Event
  -- calls of the Docker API
  new_client pull_image inspect_image inspect_container remove_container : Bytes → Event
  create_container : Bytes → List Bytes → Event
  start_container container_logs wait_container : Bytes → Event
  open_file read_file : Bytes → Event
  http_get : Bytes → Event
  -- a server that listens at an address
  listen : Bytes → Event

-- The combined output of a command and the error of its run.
pub record Ran : Type 0 where
  pub output : Bytes
  pub error : Error

-- The answers, each from the events before it (the newest first).
pub record Env : Type 0 where
  pub run : List Event → List Bytes → Ran
  -- the modification time, or an error; `is_missing` is `os.IsNotExist` of that error
  pub mod_time : List Event → Bytes → Result Bytes ℕ
  pub is_missing : List Event → Bytes → Bool
  pub removed : List Event → Bytes → Error
  pub made : List Event → Bytes → Error
  -- the node may be nil
  pub my_node : List Event → Result Bytes (Option Node)
  pub watched : List Event → Error
  pub pods : List Event → Bytes → Result Bytes (List Pod)
  pub is_managed : Pod → Bool
  pub drained : List Event → Bytes → List Pod → Error
  pub labelled : List Event → Error
  -- `os.LookupEnv`
  pub env_var : Bytes → Option Bytes
  pub opened : List Event → Bytes → Error
  pub contents : List Event → Bytes → Result Bytes Bytes
  -- `process.env` of a JSON text, and `containerIDre` on a cgroup file
  pub process_env : Bytes → Result Bytes (List Bytes)
  pub container_id : Bytes → Option Bytes
  pub connected : List Event → Bytes → Error
  pub pulled : List Event → Bytes → Result Bytes Stream
  pub image_id : List Event → Bytes → Result Bytes Bytes
  pub inspected : List Event → Bytes → Result Bytes ContainerJson
  pub created : List Event → Bytes → Result Bytes Bytes
  pub started : List Event → Bytes → Error
  -- the log as the pieces in which it arrives; an error ends it
  pub logs : List Event → Bytes → Result Bytes (List (Result Bytes Bytes))
  -- the status and the body of the node's health, and the time in seconds
  pub health : List Event → Result Bytes (ℕ × Bytes)
  pub now : List Event → ℕ
  -- a number in decimal
  pub decimal : ℕ → Bytes
  pub waited : List Event → Bytes → Result Bytes ℕ

-- The variables of the process that change while it runs.
pub record World : Type 0 where
  pub events : List Event
  pub state : InstallState
  pub errors_grace : Option ℕ
  -- the address of the REST server, if there is one
  pub srv : Option Bytes
  pub last_px_disabled : Bool
  pub last_service_cmd : Bytes
