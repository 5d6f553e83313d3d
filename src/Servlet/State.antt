-- ===== src/Servlet/State.antt =====
-- The state of the servlet: `NewRESTServlet`, `Start`, and what sets and gets the install state.
use px_installer.Base.{◌+◌, Option, none, some, [], if◌then◌else◌, Bytes, lit, str_eq}
use px_installer.World.{Env, World, InstallState, unknown, installing, finished, listen}
use px_installer.World.Monad.{M, pure, modify, get, ask, ◌>>=◌, ◌>>◌}

abbrev pub default_oci_endpoint : Bytes
default_oci_endpoint = lit "127.0.0.1:9015"

abbrev pub set_state_installing : M (Unit {0})
set_state_installing = modify (λ w. record w { state = installing })

abbrev pub set_state_install_finished : M (Unit {0})
set_state_install_finished = modify (λ w. record w { state = finished })

abbrev pub get_state : M InstallState
get_state = get World.state

-- Errors are not warned of for 60 seconds.
unfoldable pub new_rest_servlet : Env → M (Unit {0})
new_rest_servlet env =
    modify
      (λ w. record w { state = unknown; errors_grace = some (env.now w.events + 60); srv = none })

abbrev pub start_server : Bytes → Option Bytes → M (Unit {0})
start_server addr (some earlier) = pure tt
start_server addr none = do
  modify (λ w. record w { srv = some addr })
  ask (listen addr) (λ events. tt)

-- `Start`: a server that was started stays as it is.
unfoldable pub start_rest : Bytes → M (Unit {0})
start_rest addr = do
  srv ← get World.srv
  start_server (if str_eq addr [] then default_oci_endpoint else addr) srv
