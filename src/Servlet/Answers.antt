-- ===== src/Servlet/Answers.antt =====
-- What the REST service answers.
use px_installer.Base.{
  ℕ, ◌<◌, true, false, Option, none, some, ◌++◌, ◌≡◌, ◌≢◌, refl, arith, Bytes, lit, has_prefix,
  length, drop, leb,
}
use px_installer.Base.Result.{Result, ok, err}
use px_installer.World.{Error, Env, Node, World, InstallState, unknown, installing, finished}
use px_installer.World.Monad.{M, Outcome, ret, exited}
use px_installer.Service.{OciServiceControl}
use px_installer.Http.{Response, get_method, post_method}
use px_installer.Servlet.{
  Request, send_resp, done_message, finish_post, operation, run_operation, handle_post,
  proxy_health, after_first_read, handle_get_head, dispatch, handle_oci_rest,
}

-- The status and the body that the client sees.
abbrev pub answer : Outcome Response → Option (ℕ × Bytes)
answer (exited code) = none
answer (ret r) = elim r.status [ none ↦ none | some code ↦ some (code, r.body) ]

-- The health of the node as a GET should show it.
abbrev pub get_answer : InstallState → Result Bytes (ℕ × Bytes) → ℕ × Bytes
get_answer unknown health = (503, lit "Node status UNKNOWN\n")
get_answer installing health = (503, lit "Node status INSTALLING\n")
get_answer finished (err message) = (503, lit "Node status UNKNOWN\n")
get_answer finished (ok (code, content)) = (code, content)

abbrev pub get_request : Bytes → Request
get_request uri = record { method = get_method; request_uri = uri }

abbrev pub post_request : Bytes → Request
post_request uri = record { method = post_method; request_uri = uri }

module _ (itoa : ℕ → Bytes) (env : Env) (ctl : OciServiceControl) (node : Node) where
  get-by_state :
      (uri : Bytes) (w : World) (st : InstallState) (health : Result Bytes (ℕ × Bytes))
      → w.state ≡ st
      → env.health w.events ≡ health
      → answer (handle_oci_rest itoa env ctl node (get_request uri) w).0
        ≡ some (get_answer st health)
  unfolding handle_oci_rest dispatch handle_get_head after_first_read proxy_health send_resp
  get-by_state uri w unknown health s e = rw s
  get-by_state uri w installing health s e = rw s
  get-by_state uri w finished (err message) s e = rw (s, e)
  get-by_state uri w finished (ok (code, content)) s e = rw (s, e)

  -- A GET is answered by the state of the install: 503 until it is finished, whatever the node's
  -- health service would say; then by what that service says, or 503 if it cannot be asked.
  pub handle_oci_rest-get :
      (uri : Bytes) (w : World)
      → answer (handle_oci_rest itoa env ctl node (get_request uri) w).0
        ≡ some (get_answer w.state (env.health w.events))
  handle_oci_rest-get uri w = get-by_state uri w w.state (env.health w.events) refl refl

  unfinished-by_state :
      (uri : Bytes) (w : World) (st : InstallState)
      → w.state ≡ st
      → w.state ≢ finished
      → (handle_oci_rest itoa env ctl node (get_request uri) w).1 ≡ w
  unfolding handle_oci_rest dispatch handle_get_head after_first_read
  unfinished-by_state uri w unknown s h = rw s
  unfinished-by_state uri w installing s h = rw s
  unfinished-by_state uri w finished s h = absurd (h s)

  -- A GET before the install is finished asks nothing of the surroundings and changes nothing.
  handle_oci_rest-unfinished :
      (uri : Bytes) (w : World)
      → w.state ≢ finished
      → (handle_oci_rest itoa env ctl node (get_request uri) w).1 ≡ w
  handle_oci_rest-unfinished uri w h = unfinished-by_state uri w w.state refl h

  -- A POST of a known operation runs it once, and is answered 200 if it gives no error and 500 if
  -- it gives one.
  pub handle_oci_rest-post :
      (uri : Bytes) (action : M Error) (e : Error) (w w' : World)
      → has_prefix uri (lit "/service/") ≡ true
      → 10 < length uri
      → operation itoa env ctl node (drop 9 uri) ≡ some action
      → action w ≡ (ret e, w')
      → (answer (handle_oci_rest itoa env ctl node (post_request uri) w).0
          ≡ some (elim e [
            | none ↦ (200, done_message itoa (drop 9 uri))
            | some m ↦ (500, lit "INTERNAL ERROR - please check servers logs" ++ lit "\n")
          ]))
        × ((handle_oci_rest itoa env ctl node (post_request uri) w).1 ≡ w')
  unfolding handle_oci_rest dispatch handle_post run_operation finish_post
  handle_oci_rest-post uri action none w w' p l k a =
      let short : leb (length uri) 10 ≡ false = ground arith in rw (p, short, k, a) (refl, refl)
  handle_oci_rest-post uri action (some m) w w' p l k a =
      let short : leb (length uri) 10 ≡ false = ground arith in rw (p, short, k, a) (refl, refl)

  -- A POST of an unknown operation does nothing, and is answered 405 with the text of a success.
  handle_oci_rest-unknown_op :
      (uri : Bytes) (w : World)
      → has_prefix uri (lit "/service/") ≡ true
      → 10 < length uri
      → operation itoa env ctl node (drop 9 uri) ≡ none
      → (answer (handle_oci_rest itoa env ctl node (post_request uri) w).0
          ≡ some (405, done_message itoa (drop 9 uri)))
        × ((handle_oci_rest itoa env ctl node (post_request uri) w).1 ≡ w)
  unfolding handle_oci_rest dispatch handle_post run_operation finish_post
  handle_oci_rest-unknown_op uri w p l k =
      let short : leb (length uri) 10 ≡ false = ground arith in rw (p, short, k) (refl, refl)
