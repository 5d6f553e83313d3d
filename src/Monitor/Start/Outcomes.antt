-- ===== src/Monitor/Start/Outcomes.antt =====
-- How the start of the monitor ends.
use px_installer.Base.{
  List, ℕ, ◌+◌, true, false, none, some, [], ◌∷◌, ◌≡◌, refl, ◌∙◌, if◌then◌else◌, Bytes, str_eq,
}
use px_installer.Base.Result.{Result, ok}
use px_installer.World.{
  Error, Env, Node, World, finished, unknown, find_my_node, listen, watch_node,
}
use px_installer.World.Monad.{ret, exited, continue, log}
use px_installer.Kubernetes.{find_node, is_px_disabled}
use px_installer.Servlet.State.{new_rest_servlet, start_rest, default_oci_endpoint}
use px_installer.Monitor.Args.{Settings}
use px_installer.Monitor.Mounted.{validate_mounted}
use px_installer.Monitor.DoInstall.{do_install}
use px_installer.Monitor.Start.{
  tag_or_default, container_dirs, finish_start, first_operation, with_node, start_up,
}

module _ (env : Env) (px_tag : Bytes) (lstat : Bytes → Result Bytes ℕ) (s : Settings) (n : Node)
    (mounts : List Bytes) where
  abbrev pub endpoint : Bytes
  endpoint = if str_eq s.rest_endpoint [] then default_oci_endpoint else s.rest_endpoint

  -- The world at the first operation: the node is found and the REST server is up.
  abbrev pub serving : World → World
  serving w = record w {
    events = listen endpoint ∷ find_my_node ∷ w.events;
    state = unknown;
    errors_grace = some (env.now (find_my_node ∷ w.events) + 60);
    srv = some endpoint;
  }

  -- The directories are mounted and the node is found.
  abbrev pub IsReady : World → Type 0
  IsReady w =
      (validate_mounted lstat (container_dirs mounts) ≡ none) × (env.my_node w.events ≡ ok (some n))

  start_up-serving :
      (w : World)
      → IsReady w
      → start_up env px_tag lstat s mounts w
        ≡ continue
            (first_operation env px_tag lstat s n (is_px_disabled n) (serving w))
            (finish_start env n)
  unfolding start_up with_node find_node new_rest_servlet start_rest
  start_up-serving w (mounted, found) = rw (mounted, found) refl

  -- With its directories mounted and its node found and not disabled, the monitor installs Portworx
  -- while the REST server is already up. An error of the install ends the process with status 255
  -- and nothing watches the node; otherwise the state is finished and the node is watched.
  pub start_up-install :
      (w w2 : World) (e : Error)
      → IsReady w
      → is_px_disabled n ≡ false
      → do_install env s (tag_or_default px_tag) n (serving w) ≡ (ret e, w2)
      → start_up env px_tag lstat s mounts w ≡ elim e [
        | some m ↦ (exited 255, w2)
        | none ↦ (ret n, log (watch_node n.node_name) (record w2 { state = finished }))
      ]
  unfolding first_operation finish_start
  start_up-install w w2 (some m) ready enabled installed =
      start_up-serving w ready ∙ rw (enabled, installed) refl
  start_up-install w w2 none ready enabled installed =
      start_up-serving w ready ∙ rw (enabled, installed) refl

  -- On a node that is found, can be watched and is disabled from the start, with the directories
  -- mounted, nothing is installed or removed: the node is watched twice, and the state of the
  -- install counts as finished.
  pub start_up-disabled :
      (w : World)
      → IsReady w
      → is_px_disabled n ≡ true
      → env.watched (serving w).events ≡ none
      → start_up env px_tag lstat s mounts w ≡ (
        ret n,
        record (serving w) {
          events = watch_node n.node_name ∷ watch_node n.node_name ∷ (serving w).events;
          state = finished;
          last_px_disabled = false;
        },
      )
  unfolding first_operation finish_start
  start_up-disabled w ready disabled watched =
      start_up-serving w ready ∙ rw (disabled, watched) refl
