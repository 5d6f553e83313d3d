-- ===== src/Monitor/Process/Invariant.antt =====
-- What holds of the monitor's variables in every world that it reaches.
use px_installer.Base.{
  List, ℕ, Bool, true, false, Option, none, some, [], ◌≡◌, ◌≢◌, ◌⊎◌, inl, inr, refl, subst,
  Bool-cases, Bytes, lit, str_eq,
}
use px_installer.Base.Result.{Result, ok, err}
use px_installer.World.{Error, Env, Node, World, unknown}
use px_installer.World.Monad.{M, Outcome, ret, exited, continue, pure}
use px_installer.Service.{is_request, handle_request}
use px_installer.Kubernetes.{
  is_px_disabled, is_uninstall_requested, disable_px, remove_service_label, find_node,
}
use px_installer.Servlet.State.{new_rest_servlet, start_rest, start_server}
use px_installer.Monitor.Args.{Settings}
use px_installer.Monitor.Common.{oci_service}
use px_installer.Monitor.DoInstall.{do_install}
use px_installer.Monitor.Uninstall.{do_uninstall}
use px_installer.Monitor.Watch.{
  after_request, serve_request, uninstall_if, install_again, react, watch_node_labels,
}
use px_installer.Monitor.Start.{
  tag_or_default, finish_start, first_operation, with_node, with_mounts, start_up,
}
use px_installer.Monitor.Frame.{IsFrame, Keeps, bind-Keeps, if-Keeps, handle_request-Keeps}
use px_installer.Monitor.Frame.Switch.{do_uninstall-Keeps}
use px_installer.Monitor.Frame.Install.{do_install-Keeps}
use px_installer.Monitor.Frame.Rest.{handle_oci_rest-Keeps}
use px_installer.Monitor.Process.{notified, requested, Reach, started, stepped}

module _ (env : Env) where
  -- A command that is remembered: none, or an operation other than a restart.
  abbrev pub IsLast : Bytes → Type 0
  IsLast cmd =
      (cmd ≡ []) ⊎ ((is_request env oci_service cmd ≡ true) × (str_eq cmd (lit "restart") ≡ false))

  abbrev pub Remembers : World → Type 0
  Remembers w = IsLast w.last_service_cmd

  abbrev pub Good : World → Type 0
  Good w = (w.state ≢ unknown) × Remembers w

  Remembers-IsFrame : IsFrame Remembers
  Remembers-IsFrame = record { logged = λ e w h. h; stated = λ s w known h. h; graced = λ g w h. h }

  Good-IsFrame : IsFrame Good
  Good-IsFrame = record {
    logged = λ e w h. h;
    stated = λ s w known h. (known, h.1);
    graced = λ g w h. h;
  }

  module _ (s : Settings) (px_tag : Bytes) (me_node : Node) where
    after_request-Keeps :
        (n : Node) (req : Bytes) (e : Error)
        → is_request env oci_service req ≡ true
        → Keeps Good (after_request env s px_tag me_node n req e)
    unfolding after_request remove_service_label
    after_request-Keeps n req (some m) known w h = h
    after_request-Keeps n req none known w h = elim (Bool-cases (str_eq req (lit "restart"))) [
      | inl again ↦ rw again (h.0, inl refl)
      | inr other ↦ rw other (h.0, inr (known, other))
    ]

    refused-Keeps :
        (n : Node) (req : Bytes)
        → is_request env oci_service req ≡ false
        → Keeps Good (λ w.
          continue
            (handle_request env oci_service req w)
            (after_request env s px_tag me_node n req))
    unfolding handle_request after_request
    refused-Keeps n req other w h = rw other h

    serve_request-Keeps :
        (n : Node) (req last : Bytes) → Keeps Good (serve_request env s px_tag me_node n req last)
    unfolding serve_request
    serve_request-Keeps n req last =
        if-Keeps (str_eq req []) (pure tt) _ (λ w h. h)
          (if-Keeps (str_eq req last) (pure tt) _ (λ w h. h)
            (elim (Bool-cases (is_request env oci_service req)) [
              | inl known ↦
                  bind-Keeps (handle_request env oci_service req) _
                    (handle_request-Keeps Good-IsFrame env oci_service req)
                    (λ e. after_request-Keeps n req e known)
              | inr other ↦ refused-Keeps n req other
            ]))

    uninstall_if-Keeps : (n : Node) (b : Bool) → Keeps Good (uninstall_if env s px_tag me_node n b)
    unfolding uninstall_if disable_px
    uninstall_if-Keeps n false w h = h
    uninstall_if-Keeps n true w h =
        bind-Keeps (do_uninstall env) _ (do_uninstall-Keeps Good-IsFrame env) (λ _ w h. h) w h

    install_again-Keeps : Keeps Good (install_again env s px_tag me_node)
    install_again-Keeps =
        bind-Keeps (do_install env s px_tag me_node) _
          (do_install-Keeps Good-IsFrame env s px_tag me_node) (λ _ w h. h)

    react-Keeps :
        (n : Node) (disabled last : Bool) → Keeps Good (react env s px_tag me_node n disabled last)
    unfolding react
    react-Keeps n false true w h = install_again-Keeps w h
    react-Keeps n true false w h = uninstall_if-Keeps n (is_uninstall_requested n) w h
    react-Keeps n true true w h = serve_request-Keeps n _ _ w h
    react-Keeps n false false w h = serve_request-Keeps n _ _ w h

    watch_node_labels-Keeps : (n : Node) → Keeps Good (watch_node_labels env s px_tag me_node n)
    unfolding watch_node_labels
    watch_node_labels-Keeps n w h =
        bind-Keeps (react env s px_tag me_node n (is_px_disabled n) w.last_px_disabled) _
          (react-Keeps n (is_px_disabled n) w.last_px_disabled) (λ _ w h. h) w h

  -- A start that returns, and what it leaves.
  abbrev EndsGood : Outcome Node × World → Type 0
  EndsGood (ret n, w) = Good w
  EndsGood (exited code, w) = Unit

  continue-EndsGood :
      {A : Type 0} (r : Outcome A × World) (f : A → M Node)
      → Remembers r.1
      → ((a : A) (w : World) → Remembers w → EndsGood (f a w))
      → EndsGood (continue r f)
  continue-EndsGood (ret a, w) f h k = k a w h
  continue-EndsGood (exited code, w) f h k = tt

  finish_start-EndsGood :
      (n : Node) (e : Error) (w : World) → Remembers w → EndsGood (finish_start env n e w)
  unfolding finish_start
  finish_start-EndsGood n none w h = (λ e. cc, h)
  finish_start-EndsGood n (some m) w h = tt

  start_server-Keeps : (addr : Bytes) (srv : Option Bytes) → Keeps Remembers (start_server addr srv)
  start_server-Keeps addr none w h = h
  start_server-Keeps addr (some earlier) w h = h

  start_rest-Keeps : (addr : Bytes) → Keeps Remembers (start_rest addr)
  unfolding start_rest
  start_rest-Keeps addr w h = start_server-Keeps _ w.srv w h

  module _ (px_tag : Bytes) (lstat : Bytes → Result Bytes ℕ) (s : Settings) where
    first_operation-Keeps :
        (n : Node) (disabled : Bool)
        → Keeps Remembers (first_operation env px_tag lstat s n disabled)
    unfolding first_operation
    first_operation-Keeps n true w h = h
    first_operation-Keeps n false w h =
        do_install-Keeps Remembers-IsFrame env s (tag_or_default px_tag) n w h

    with_node-EndsGood :
        (r : Result Bytes (Option Node)) (w : World)
        → Remembers w
        → EndsGood (with_node env px_tag lstat s r w)
    unfolding with_node new_rest_servlet
    with_node-EndsGood (err m) w h = tt
    with_node-EndsGood (ok none) w h = tt
    with_node-EndsGood (ok (some n)) w h =
        continue-EndsGood (start_rest s.rest_endpoint _) _ (start_rest-Keeps s.rest_endpoint _ h)
          λ _ w1 h1.
            continue-EndsGood (first_operation env px_tag lstat s n (is_px_disabled n) w1) _
              (first_operation-Keeps n _ w1 h1) (finish_start-EndsGood n)

    with_mounts-EndsGood :
        (e : Error) (w : World) → Remembers w → EndsGood (with_mounts env px_tag lstat s e w)
    unfolding find_node
    with_mounts-EndsGood none w h = with_node-EndsGood _ _ h
    with_mounts-EndsGood (some m) w h = tt

    start_up-EndsGood :
        (mounts : List Bytes) (w : World)
        → Remembers w
        → EndsGood (start_up env px_tag lstat s mounts w)
    unfolding start_up
    start_up-EndsGood mounts w h = with_mounts-EndsGood _ w h

    module _ (itoa : ℕ → Bytes) (me_node : Node) where
      -- In every world that a freshly started monitor reaches behind its start, by notifications
      -- and requests in any order, the state of the install is not unknown, and the remembered
      -- command is none, or one that a label may ask for, and no restart.
      pub Reach-Good : (w : World) → Reach itoa env px_tag lstat s me_node w → Good w
      Reach-Good _ (started mounts w w' keys fresh e) =
          subst EndsGood e (start_up-EndsGood mounts w (inl fresh))
      Reach-Good _ (stepped _ _ r (notified n w w' e)) =
          subst (λ r. Good r.1) e
            (watch_node_labels-Keeps s (tag_or_default px_tag) me_node n w (Reach-Good w r))
      Reach-Good _ (stepped _ _ r (requested req resp w w' e)) =
          subst (λ r. Good r.1) e
            (handle_oci_rest-Keeps Good-IsFrame itoa env oci_service me_node req w (Reach-Good w r))
