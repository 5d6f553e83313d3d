-- ===== src/Service/Requests.antt =====
-- The same commands on the two ways to ask for them: the REST service and the label of the node.
use px_installer.Base.{
  true, none, some, List, ◌≡◌, refl, if◌then◌else◌, Bytes, lit, str_eq, contains, Bool-cases, inl,
  inr,
}
use px_installer.World.{exec, Env, World}
use px_installer.World.Monad.{ret, log}
use px_installer.Service.{
  OciServiceControl, nsenter, op_error, judge, systemctl, run_external, do_op, stop, is_request,
  handle_request,
}

module _ (env : Env) (o : OciServiceControl) where
  abbrev pub stop_args : List Bytes
  stop_args = nsenter o (lit "/bin/sh") (systemctl o (lit "stop"))

  stop-is_request : is_request env o (lit "stop") ≡ true
  unfolding is_request str_eq lit
  stop-is_request = refl

  -- A service that is not loaded counts as stopped for `Stop`, which the REST service and the
  -- uninstall use, but is an error for a label's request, which is then repeated. Both have run the
  -- same command, once.
  pub stop-handle_request :
      (w : World) (message : Bytes)
      → (env.run w.events stop_args).error ≡ some message
      → contains (env.run w.events stop_args).output (lit " not loaded") ≡ true
      → (stop env o w ≡ (ret none, log (exec stop_args) w))
        × (handle_request env o (lit "stop") w
            ≡ (ret (some (op_error o (lit "stop") message)), log (exec stop_args) w))
  unfolding stop handle_request do_op run_external judge
  stop-handle_request w message e c = (rw (e, c) refl, rw (stop-is_request, e) refl)

  -- Of everything that can be asked for, only the five operations run a command, and they run
  -- exactly `systemctl` with that operation; anything else is an error and runs nothing.
  handle_request-events :
      (op : Bytes) (w : World)
      → (handle_request env o op w).1 ≡ (
          if is_request env o op
          then log (exec (nsenter o (lit "/bin/sh") (systemctl o op))) w
          else w)
  unfolding handle_request do_op run_external
  handle_request-events op w = elim (Bool-cases (is_request env o op)) [
    | inl known ↦ rw known refl
    | inr unknown ↦ rw unknown refl
  ]
