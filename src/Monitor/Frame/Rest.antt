-- ===== src/Monitor/Frame/Rest.antt =====
-- A request to the REST service.
use px_installer.Base.{
  ℕ, Bool, true, false, not, ◌||◌, Option, none, some, Bytes, lit, has_prefix, length, drop, leb,
}
use px_installer.Base.Result.{Result, ok, err}
use px_installer.Http.{Response, Method, head_method, get_method, post_method, other_method}
use px_installer.World.{Error, Env, Node, World, InstallState, unknown, installing, finished}
use px_installer.World.Monad.{M, pure}
use px_installer.Service.{OciServiceControl}
use px_installer.Servlet.{
  Request, send_invalid_req, after_health, proxy_health, after_first_read, handle_get_head,
  operation, run_operation, handle_post, dispatch, handle_oci_rest,
}
use px_installer.Servlet.Operations.{operation-All}
use px_installer.Monitor.Frame.{
  IsFrame, Keeps, bind-Keeps, if-Keeps, start-Keeps, stop-Keeps, restart-Keeps, enable-Keeps,
  disable-Keeps, drain_px_volume_consumer_pods-Keeps,
}

module _ {holds : World → Type 0} (frame : IsFrame holds) (itoa : ℕ → Bytes) (env : Env)
    (ctl : OciServiceControl) (n : Node) where
  abbrev AllKeep : Option (M Error) → Type 0
  AllKeep none = Unit
  AllKeep (some action) = Keeps holds action

  operation-AllKeep : (op : Bytes) → AllKeep (operation itoa env ctl n op)
  operation-AllKeep op =
      operation-All AllKeep itoa env ctl n op (start-Keeps frame env ctl) (stop-Keeps frame env ctl)
        (restart-Keeps frame env ctl) (enable-Keeps frame env ctl) (disable-Keeps frame env ctl)
        (drain_px_volume_consumer_pods-Keeps frame env n) tt

  run_operation-Keeps :
      (op : Bytes) (action : Option (M Error)) (r : Response)
      → AllKeep action
      → Keeps holds (run_operation itoa env ctl n op action r)
  unfolding run_operation
  run_operation-Keeps op none r k w h = h
  run_operation-Keeps op (some action) r k w h = bind-Keeps action _ k (λ _ w h. h) w h

  handle_post-Keeps : (uri : Bytes) (r : Response) → Keeps holds (handle_post itoa env ctl n uri r)
  unfolding handle_post
  handle_post-Keeps uri r =
      if-Keeps (not (has_prefix uri (lit "/service/")) || leb (length uri) 10)
        (pure (send_invalid_req r)) _ (λ w h. h)
        (run_operation-Keeps (drop 9 uri) _ r (operation-AllKeep (drop 9 uri)))

  after_health-Keeps :
      (send_data : Bool) (r : Response) (answer : Result Bytes (ℕ × Bytes))
      → Keeps holds (after_health itoa env ctl n send_data r answer)
  after_health-Keeps send_data r (err m) w h = frame.graced _ w h
  after_health-Keeps send_data r (ok (code, content)) w h = h

  after_first_read-Keeps :
      (send_data : Bool) (r : Response) (first second : InstallState)
      → Keeps holds (after_first_read itoa env ctl n send_data r first second)
  unfolding after_first_read proxy_health
  after_first_read-Keeps send_data r unknown second w h = h
  after_first_read-Keeps send_data r installing unknown w h = h
  after_first_read-Keeps send_data r installing installing w h = h
  after_first_read-Keeps send_data r installing finished w h =
      after_health-Keeps send_data r _ _ (frame.logged _ w h)
  after_first_read-Keeps send_data r finished unknown w h = h
  after_first_read-Keeps send_data r finished installing w h = h
  after_first_read-Keeps send_data r finished finished w h =
      after_health-Keeps send_data r _ _ (frame.logged _ w h)

  handle_get_head-Keeps :
      (send_data : Bool) (r : Response) → Keeps holds (handle_get_head itoa env ctl n send_data r)
  unfolding handle_get_head
  handle_get_head-Keeps send_data r w h = after_first_read-Keeps send_data r w.state w.state w h

  dispatch-Keeps :
      (m : Method) (uri : Bytes) (r : Response) → Keeps holds (dispatch itoa env ctl n m uri r)
  unfolding dispatch
  dispatch-Keeps head_method uri r w h = handle_get_head-Keeps false r w h
  dispatch-Keeps get_method uri r w h = handle_get_head-Keeps true r w h
  dispatch-Keeps post_method uri r w h = handle_post-Keeps uri r w h
  dispatch-Keeps other_method uri r w h = h

  pub handle_oci_rest-Keeps : (req : Request) → Keeps holds (handle_oci_rest itoa env ctl n req)
  unfolding handle_oci_rest
  handle_oci_rest-Keeps req = dispatch-Keeps req.method req.request_uri _
