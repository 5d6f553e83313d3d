-- ===== src/Tests/Host.antt =====
-- Surroundings in which all goes well, but for the installer: `px-runc install` fails.
use px_installer.Base.{
  Bool, true, false, none, some, List, [], ◌∷◌, Bytes, lit, str_eq, any, if◌then◌else◌,
}
use px_installer.Base.Result.{ok, err}
use px_installer.World.{Event, Env, Node, Ran, World, ContainerJson, MountPoint, installing}

abbrev pub host_run : List Event → List Bytes → Ran
host_run h args = record {
  output = [];
  error = if any (str_eq (lit "install")) args then some (lit "exit status 1") else none;
}

abbrev pub my_mount : MountPoint
my_mount = record {
  source = lit "/opt/pwx";
  destination = lit "/opt/pwx";
  propagation = lit "shared";
  rw = true;
}

abbrev pub my_container : ContainerJson
my_container = record {
  args = lit "-x" ∷ lit "kubernetes" ∷ [];
  mounts = my_mount ∷ [];
  hosts_path = lit "/var/hosts";
  resolv_conf_path = [];
  env_list = [];
  container_labels = [];
}

-- `gone` says which files are not there.
abbrev pub host : (List Event → Bytes → Bool) → Env
host gone = record {
  run = host_run;
  mod_time = λ h p. ok 1;
  is_missing = gone;
  removed = λ h p. none;
  made = λ h p. none;
  my_node = λ h. ok none;
  watched = λ h. none;
  pods = λ h n. ok [];
  is_managed = λ p. true;
  drained = λ h n ps. none;
  labelled = λ h. none;
  env_var = λ n. none;
  opened = λ h p. none;
  contents = λ h p. err (lit "no such file");
  process_env = λ t. ok [];
  container_id = λ t. none;
  connected = λ h v. none;
  pulled = λ h n. ok (record { content = lit "{}"; fails = none });
  image_id = λ h n. ok (lit "sha256:1");
  inspected = λ h i. ok my_container;
  created = λ h n. ok (lit "c1");
  started = λ h i. none;
  logs = λ h i. ok [];
  health = λ h. ok (200, lit "up");
  now = λ h. 0;
  decimal = λ n. lit "7";
  waited = λ h i. ok 0;
}

abbrev pub start_world : World
start_world = record {
  events = [];
  state = installing;
  errors_grace = none;
  srv = none;
  last_px_disabled = false;
  last_service_cmd = [];
}

abbrev pub plain_host : Env
plain_host = host (λ h p. false)

abbrev pub labelled_node : Bytes → Bytes → Node
labelled_node key value = record { node_name = lit "n1"; labels = (key, value) ∷ [] }
