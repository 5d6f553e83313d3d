-- ===== src/Monitor/Start.antt =====
-- The start-up in `main` of px-oci-mon/main.go, around its argument loop.
pub mod Outcomes
pub mod Order
use px_installer.Base.{
  ℕ, Bool, true, false, Option, none, some, List, [], ◌∷◌, if◌then◌else◌, ◌==◌, Bytes, lit, str_eq,
}
use px_installer.Base.Result.{Result, ok, err}
use px_installer.World.{Error, Env, Node, watch_node}
use px_installer.World.Monad.{M, pure, exit, modify, ask, ◌>>=◌, ◌>>◌}
use px_installer.Kubernetes.{find_node, is_px_disabled}
use px_installer.Servlet.State.{new_rest_servlet, start_rest, set_state_install_finished}
use px_installer.Monitor.Args.{
  Settings, Parsed, settings, exit_usage, exit_log, exit_scheduler, parse_args,
}
use px_installer.Monitor.Mounted.{validate_mounted}
use px_installer.Monitor.DoInstall.{do_install}

abbrev pub default_px_tag : Bytes
default_px_tag = lit "1.2.12.1"

abbrev pub tag_or_default : Bytes → Bytes
tag_or_default px_tag = if str_eq px_tag [] then default_px_tag else px_tag

abbrev pub until_colon : Bytes → Bytes
until_colon [] = []
until_colon (c ∷ s) = let rest = until_colon s in if c == b':' then [] else c ∷ rest

-- `strings.Split(k, ":")[1]`, for a text with a colon.
abbrev pub container_dir : Bytes → Bytes
container_dir [] = []
container_dir (c ∷ s) = let rest = container_dir s in if c == b':' then until_colon s else rest

-- The directories of `ociPrivateMounts`.
abbrev pub container_dirs : List Bytes → List Bytes
container_dirs [] = []
container_dirs (m ∷ mounts) = container_dir m ∷ container_dirs mounts

module _ (env : Env) where
  -- Each call of `WatchNode` starts a goroutine that calls `watchNodeLabels`.
  abbrev pub watch : Node → M Error
  watch n = ask (watch_node n.node_name) env.watched

  -- Behind the first operation: an error is critical, with status -1.
  unfoldable pub finish_start : Node → Error → M Node
  finish_start n (some message) = exit 255
  finish_start n none = do set_state_install_finished; watch n; pure n

  module _ (px_tag : Bytes) (lstat : Bytes → Result Bytes ℕ) (s : Settings) where
    unfoldable pub first_operation : Node → Bool → M Error
    first_operation n true = do modify (λ w. record w { last_px_disabled = false }); watch n
    first_operation n false = do_install env s (tag_or_default px_tag) n

    unfoldable pub with_node : Result Bytes (Option Node) → M Node
    with_node (err message) = exit 1
    with_node (ok none) = exit 1
    with_node (ok (some n)) = do
      new_rest_servlet env
      start_rest s.rest_endpoint
      e ← first_operation n (is_px_disabled n)
      finish_start n e

    abbrev pub with_mounts : Error → M Node
    with_mounts (some message) = exit 255
    with_mounts none = do found ← find_node env; with_node found

    -- From "Validate required OCI mounts" on. The result is `meNode`, for the watcher.
    -- `mounts` are the keys of `ociPrivateMounts`, in the order in which `range` gives them.
    unfoldable pub start_up : List Bytes → M Node
    start_up mounts = with_mounts (validate_mounted lstat (container_dirs mounts))

  module _ (px_tag : Bytes) (lstat : Bytes → Result Bytes ℕ) (mounts : List Bytes) where
    abbrev pub run_parsed : Parsed → M Node
    run_parsed (settings s) = start_up px_tag lstat s mounts
    run_parsed exit_usage = exit 1
    run_parsed exit_log = exit 1
    run_parsed exit_scheduler = exit 1

    unfoldable pub main : (Bytes → Bool) → List Bytes → M Node
    main open_log argv = run_parsed (parse_args open_log argv)
