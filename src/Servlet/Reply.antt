-- ===== src/Servlet/Reply.antt =====
-- The status of the reply to a request.
use px_installer.Base.{
  ℕ, Bool, true, false, not, ◌||◌, Option, none, some, List, [], ◌∷◌, ◌≡◌, refl, Bool-cases, inl,
  inr, Bytes, lit, has_prefix, length, drop, leb,
}
use px_installer.Base.Result.{Result, ok, err}
use px_installer.Http.{
  add_header, empty_response, Response, Method, head_method, get_method, post_method, other_method,
}
use px_installer.World.{Error, Env, Node, Pod, World, InstallState, unknown, installing, finished}
use px_installer.World.Monad.{M, Outcome, ret, exited, continue}
use px_installer.World.Returns.{Returns, Total}
use px_installer.Service.{
  OciServiceControl, start, stop, restart, enable, disable, do_op, run_external,
}
use px_installer.Kubernetes.{drain_chosen, drain_found, drain_px_volume_consumer_pods}
use px_installer.Servlet.{
  Request, send_resp, finish_post, operation, run_operation, handle_post, after_health,
  proxy_health, after_first_read, handle_get_head, dispatch, handle_oci_rest,
}
use px_installer.Servlet.Operations.{operation-All}

-- A response with a status.
abbrev pub IsAnswered : Outcome Response × World → Type 0
IsAnswered (ret r, w) = (code : ℕ) × (r.status ≡ some code)
IsAnswered (exited code, w) = ⊥

module _ (itoa : ℕ → Bytes) (env : Env) (ctl : OciServiceControl) (n : Node) where
  drain_chosen-Total : (pods : List Pod) → Total (drain_chosen env n pods)
  unfolding drain_chosen
  drain_chosen-Total [] w = tt
  drain_chosen-Total (p ∷ pods) w = tt

  drain_found-Total :
      (all : Bool) (found : Result Bytes (List Pod)) → Total (drain_found env n all found)
  drain_found-Total all (err m) w = tt
  drain_found-Total all (ok found) w = drain_chosen-Total _ w

  drain-Total : (all : Bool) → Total (drain_px_volume_consumer_pods env n all)
  unfolding drain_px_volume_consumer_pods
  drain-Total all w = drain_found-Total all _ _

  abbrev AllTotal : Option (M Error) → Type 0
  AllTotal none = Unit
  AllTotal (some action) = Total action

  operation-AllTotal : (op : Bytes) → AllTotal (operation itoa env ctl n op)
  unfolding start stop restart enable disable do_op run_external
  operation-AllTotal op =
      operation-All AllTotal itoa env ctl n op (λ w. tt) (λ w. tt) (λ w. tt) (λ w. tt) (λ w. tt)
        drain-Total tt

  -- What every handler starts with.
  abbrev first : Response
  first = add_header (lit "Server") (lit "Portworx/OCI-monitor v1.0") empty_response

  finished-IsAnswered :
      (op : Bytes) (r : Outcome Error × World)
      → Returns r
      → IsAnswered (continue r (λ e w. (ret (finish_post itoa op first e), w)))
  unfolding finish_post
  finished-IsAnswered op (ret none, w) returns = (200, refl)
  finished-IsAnswered op (ret (some m), w) returns = (500, refl)
  finished-IsAnswered op (exited code, w) returns = absurd returns

  run_operation-IsAnswered :
      (op : Bytes) (action : Option (M Error)) (w : World)
      → AllTotal action
      → IsAnswered (run_operation itoa env ctl n op action first w)
  unfolding run_operation finish_post
  run_operation-IsAnswered op none w total = (405, refl)
  run_operation-IsAnswered op (some action) w total = finished-IsAnswered op (action w) (total w)

  handle_post-IsAnswered :
      (uri : Bytes) (w : World) → IsAnswered (handle_post itoa env ctl n uri first w)
  unfolding handle_post
  handle_post-IsAnswered uri w =
      elim (Bool-cases (not (has_prefix uri (lit "/service/")) || leb (length uri) 10)) [
        | inl invalid ↦ rw invalid (405, refl)
        | inr valid ↦
            rw valid (run_operation-IsAnswered (drop 9 uri) _ w (operation-AllTotal (drop 9 uri)))
      ]

  send_resp-status :
      (send_data : Bool) (code : ℕ) (content : Bytes)
      → (send_resp itoa send_data code content first).status ≡ some code
  unfolding send_resp
  send_resp-status true code content = refl
  send_resp-status false code content = refl

  after_health-IsAnswered :
      (send_data : Bool) (answer : Result Bytes (ℕ × Bytes)) (w : World)
      → IsAnswered (after_health itoa env ctl n send_data first answer w)
  after_health-IsAnswered send_data (err m) w = (503, send_resp-status send_data 503 _)
  after_health-IsAnswered send_data (ok (code, content)) w =
      (code, send_resp-status send_data code content)

  after_first_read-IsAnswered :
      (send_data : Bool) (one two : InstallState) (w : World)
      → IsAnswered (after_first_read itoa env ctl n send_data first one two w)
  unfolding after_first_read proxy_health
  after_first_read-IsAnswered send_data unknown two w = (503, send_resp-status send_data 503 _)
  after_first_read-IsAnswered send_data installing finished w =
      after_health-IsAnswered send_data (env.health w.events) _
  after_first_read-IsAnswered send_data finished finished w =
      after_health-IsAnswered send_data (env.health w.events) _
  after_first_read-IsAnswered send_data installing unknown w =
      (503, send_resp-status send_data 503 _)
  after_first_read-IsAnswered send_data installing installing w =
      (503, send_resp-status send_data 503 _)
  after_first_read-IsAnswered send_data finished unknown w = (503, send_resp-status send_data 503 _)
  after_first_read-IsAnswered send_data finished installing w =
      (503, send_resp-status send_data 503 _)

  dispatch-IsAnswered :
      (m : Method) (uri : Bytes) (w : World) → IsAnswered (dispatch itoa env ctl n m uri first w)
  unfolding dispatch handle_get_head
  dispatch-IsAnswered head_method uri w = after_first_read-IsAnswered false w.state w.state w
  dispatch-IsAnswered get_method uri w = after_first_read-IsAnswered true w.state w.state w
  dispatch-IsAnswered post_method uri w = handle_post-IsAnswered uri w
  dispatch-IsAnswered other_method uri w = (405, refl)

  -- Every request, whatever its method and path and whatever fails behind it, is answered with a
  -- status and does not end the process.
  pub handle_oci_rest-IsAnswered :
      (req : Request) (w : World) → IsAnswered (handle_oci_rest itoa env ctl n req w)
  unfolding handle_oci_rest
  handle_oci_rest-IsAnswered req w = dispatch-IsAnswered req.method req.request_uri w
