-- ===== src/Servlet.antt =====
-- px-oci-mon/utils/servlet.go: the REST controls of the monitor.
pub mod State
pub mod Answers
pub mod Actions
pub mod Posts
pub mod Operations
pub mod Reply
use px_installer.Base.{
  ℕ, ◌+◌, Bool, true, false, not, ◌||◌, Option, none, some, List, [], ◌∷◌, ◌++◌, if◌then◌else◌,
  Bytes, lit, str_eq, has_prefix, length, drop, leb, ltb, to_upper,
}
use px_installer.Base.Result.{Result, ok, err}
use px_installer.Http.{
  Response, Method, head_method, get_method, post_method, other_method, add_header, write_header,
  write, empty_response, http_error,
}
use px_installer.World.{
  Error, Env, Node, World, InstallState, unknown, installing, finished, http_get,
}
use px_installer.World.Monad.{M, pure, modify, get, ◌>>=◌, ◌>>◌, ask}
use px_installer.Servlet.State.{get_state}
use px_installer.Service.{OciServiceControl, start, stop, restart, enable, disable}
use px_installer.Kubernetes.{drain_px_volume_consumer_pods}

pub record Request : Type 0 where
  pub method : Method
  pub request_uri : Bytes

abbrev pub send_invalid_req : Response → Response
send_invalid_req r = add_header (lit "Connection") (lit "close") (write_header 405 r)

-- The length in a header is written by `strconv.Itoa`; `itoa` stands for it.
module _ (itoa : ℕ → Bytes) where
  abbrev pub send_text : ℕ → Bytes → Response → Response
  send_text code content r = write content (
      write_header code (
        add_header (lit "Content-Length") (itoa (length content))
          (add_header (lit "Content-Type") (lit "text/plain") r)))

  -- `sendResp` of `handleGetHead`
  unfoldable pub send_resp : Bool → ℕ → Bytes → Response → Response
  send_resp true code content r = send_text code content r
  send_resp false code content r = write_header code r

  abbrev pub done_message : Bytes → Bytes
  done_message op = lit "REST action " ++ (to_upper op ++ lit " completed successfully\n")

  unfoldable pub finish_post : Bytes → Response → Error → Response
  finish_post op r none = send_text 200 (done_message op) r
  finish_post op r (some message) =
      http_error 500 (lit "INTERNAL ERROR - please check servers logs") r

  module _ (env : Env) (ctl : OciServiceControl) (node : Node) where
    -- What the operation of a POST does; `none` if there is no such operation.
    unfoldable pub operation : Bytes → Option (M Error)
    operation op =
        if str_eq op (lit "start")
        then some (start env ctl)
        else if str_eq op (lit "stop")
        then some (stop env ctl)
        else if str_eq op (lit "restart")
        then some (restart env ctl)
        else if str_eq op (lit "enable")
        then some (enable env ctl)
        else if str_eq op (lit "disable")
        then some (disable env ctl)
        else if str_eq op (lit "drain")
        then some (drain_px_volume_consumer_pods env node true)
        else if str_eq op (lit "drain-managed")
        then some (drain_px_volume_consumer_pods env node false)
        else none

    -- For an unknown operation the inner `break` leaves only the inner switch: `err` is nil, and
    -- the code behind it runs.
    unfoldable pub run_operation : Bytes → Option (M Error) → Response → M Response
    run_operation op none r = pure (finish_post op (send_invalid_req r) none)
    run_operation op (some action) r = do e ← action; pure (finish_post op r e)

    unfoldable pub handle_post : Bytes → Response → M Response
    handle_post uri r =
        if not (has_prefix uri (lit "/service/")) || leb (length uri) 10
        then pure (send_invalid_req r)
        else run_operation (drop 9 uri) (operation (drop 9 uri)) r

    abbrev pub unknown_status_msg : Bytes
    unknown_status_msg = lit "Node status UNKNOWN\n"

    -- Within the grace period the errors are not yet warnings.
    abbrev pub still_grace : ℕ → Option ℕ → Option ℕ
    still_grace now none = none
    still_grace now (some end) = if ltb now end then some end else none

    abbrev pub health_failed : Bool → Response → M Response
    health_failed send_data r = do
      now ← (λ w. pure (env.now w.events) w)
      modify (λ w. record w { errors_grace = still_grace now w.errors_grace })
      pure (send_resp send_data 503 unknown_status_msg r)

    abbrev pub after_health : Bool → Response → Result Bytes (ℕ × Bytes) → M Response
    after_health send_data r (err message) = health_failed send_data r
    after_health send_data r (ok (code, content)) = pure (send_resp send_data code content r)

    unfoldable pub proxy_health : Bool → Response → M Response
    proxy_health send_data r = do
      answer ← ask (http_get (lit "http://127.0.0.1:9001/v1/cluster/nodehealth")) env.health
      after_health send_data r answer

    -- The state is read under the lock twice; `first` is what the first read gave.
    unfoldable pub after_first_read : Bool → Response → InstallState → InstallState → M Response
    after_first_read send_data r unknown second =
        pure (send_resp send_data 503 unknown_status_msg r)
    after_first_read send_data r _ finished = proxy_health send_data r
    after_first_read send_data r _ _ =
        pure (send_resp send_data 503 (lit "Node status INSTALLING\n") r)

    unfoldable pub handle_get_head : Bool → Response → M Response
    handle_get_head send_data r = do
      first ← get_state
      second ← get_state
      after_first_read send_data r first second

    unfoldable pub dispatch : Method → Bytes → Response → M Response
    dispatch head_method uri r = handle_get_head false r
    dispatch get_method uri r = handle_get_head true r
    dispatch post_method uri r = handle_post uri r
    dispatch other_method uri r = pure (send_invalid_req r)

    unfoldable pub handle_oci_rest : Request → M Response
    handle_oci_rest req =
        dispatch req.method req.request_uri
          (add_header (lit "Server") (lit "Portworx/OCI-monitor v1.0") empty_response)
