-- ===== src/Monitor/Watch/Labels.antt =====
-- The watcher against a specification of what a notification does to the remembered command.
use px_installer.Base.{
  Bool, true, false, none, some, [], ◌≡◌, ◌≢◌, ◌⊎◌, inl, inr, refl, sym, ap, ◌∙◌, subst, Bool-cases,
  Bytes, lit, str_eq, str_eq_iff,
}
use px_installer.World.{Error, Env, Node, World}
use px_installer.World.Monad.{Outcome, ret, exited, continue}
use px_installer.Service.{handle_request}
use px_installer.Kubernetes.{is_px_disabled, get_service_request, disable_px, remove_service_label}
use px_installer.Monitor.Args.{Settings}
use px_installer.Monitor.Common.{oci_service}
use px_installer.Monitor.DoInstall.{do_install}
use px_installer.Monitor.Uninstall.{do_uninstall}
use px_installer.Monitor.Frame.{IsFrame, Keeps, bind-Keeps, handle_request-Keeps}
use px_installer.Monitor.Frame.Switch.{do_uninstall-Keeps}
use px_installer.Monitor.Frame.Install.{do_install-Keeps}
use px_installer.Monitor.Watch.{
  after_request, serve_request, uninstall_if, install_again, react, watch_node_labels,
}

-- What a notification may do: `LabelStep env n w cmd` has the command that is remembered behind it.
pub data LabelStep (env : Env) (n : Node) (w : World) : Bytes → Type 0 where
  -- Portworx was switched on or off, and the command stays.
  toggled : w.last_px_disabled ≢ is_px_disabled n → LabelStep env n w w.last_service_cmd
  -- Nothing was asked for, or what was done last.
  ignored :
      w.last_px_disabled ≡ is_px_disabled n
      → (get_service_request n ≡ []) ⊎ (get_service_request n ≡ w.last_service_cmd)
      → LabelStep env n w w.last_service_cmd
  -- The command failed, and will be tried again.
  failed :
      w.last_px_disabled ≡ is_px_disabled n
      → get_service_request n ≢ w.last_service_cmd
      → (handle_request env oci_service (get_service_request n) w).0 ≢ ret none
      → LabelStep env n w w.last_service_cmd
  restarted :
      w.last_px_disabled ≡ is_px_disabled n
      → get_service_request n ≡ lit "restart"
      → (handle_request env oci_service (get_service_request n) w).0 ≡ ret none
      → LabelStep env n w []
  served :
      w.last_px_disabled ≡ is_px_disabled n
      → get_service_request n ≢ w.last_service_cmd
      → get_service_request n ≢ lit "restart"
      → (handle_request env oci_service (get_service_request n) w).0 ≡ ret none
      → LabelStep env n w (get_service_request n)

IsCmd-IsFrame : (cmd : Bytes) → IsFrame (λ w. w.last_service_cmd ≡ cmd)
IsCmd-IsFrame cmd = record { logged = λ e w h. h; stated = λ s w known h. h; graced = λ g w h. h }

different : (a b : Bytes) → str_eq a b ≡ false → a ≢ b
different a b differ same = let e : str_eq a b ≡ true = (str_eq_iff a b).1 same in cc

module _ (env : Env) (s : Settings) (px_tag : Bytes) (me_node n : Node) (w : World) where
  -- A run that, where it returns, made a step.
  abbrev Steps : Outcome (Unit {0}) × World → Type 0
  Steps r = r.0 ≡ ret tt → LabelStep env n w r.1.last_service_cmd

  install_again-Steps :
      w.last_px_disabled ≢ is_px_disabled n → Steps (install_again env s px_tag me_node w)
  install_again-Steps new returned =
      subst (LabelStep env n w)
        (sym (
          bind-Keeps {holds = λ v. v.last_service_cmd ≡ w.last_service_cmd}
            (do_install env s px_tag me_node) _
            (do_install-Keeps (IsCmd-IsFrame w.last_service_cmd) env s px_tag me_node) (λ _ v h. h)
            w refl))
        (toggled new)

  uninstall_if-Keeps :
      (b : Bool)
      → Keeps (λ v. v.last_service_cmd ≡ w.last_service_cmd) (uninstall_if env s px_tag me_node n b)
  unfolding uninstall_if disable_px
  uninstall_if-Keeps false v h = h
  uninstall_if-Keeps true v h =
      bind-Keeps {holds = λ v. v.last_service_cmd ≡ w.last_service_cmd} (do_uninstall env) _
        (do_uninstall-Keeps (IsCmd-IsFrame w.last_service_cmd) env) (λ _ v h. h) v h

  uninstall_if-Steps :
      (b : Bool)
      → w.last_px_disabled ≢ is_px_disabled n
      → Steps (uninstall_if env s px_tag me_node n b w)
  uninstall_if-Steps b new returned =
      subst (LabelStep env n w) (sym (uninstall_if-Keeps b w refl)) (toggled new)

  after_request-Steps :
      (r : Outcome Error × World)
      → w.last_px_disabled ≡ is_px_disabled n
      → get_service_request n ≢ w.last_service_cmd
      → handle_request env oci_service (get_service_request n) w ≡ r
      → r.1.last_service_cmd ≡ w.last_service_cmd
      → Steps (continue r (after_request env s px_tag me_node n (get_service_request n)))
  unfolding after_request remove_service_label
  after_request-Steps (exited code, v) same new ran kept returned = absurd cc
  after_request-Steps (ret (some m), v) same new ran kept returned =
      subst (LabelStep env n w) (sym kept) (failed same new (λ e. cc))
  after_request-Steps (ret none, v) same new ran kept returned =
      elim (Bool-cases (str_eq (get_service_request n) (lit "restart"))) [
        | inl again ↦ rw again (restarted same ((str_eq_iff _ _).0 again) (ap (λ r. r.0) ran))
        | inr other ↦ rw other (served same new (different _ _ other) (ap (λ r. r.0) ran))
      ]

  serve_request-Steps :
      w.last_px_disabled ≡ is_px_disabled n
      → Steps (serve_request env s px_tag me_node n (get_service_request n) w.last_service_cmd w)
  unfolding serve_request
  serve_request-Steps same = elim (Bool-cases (str_eq (get_service_request n) [])) [
    | inl nothing ↦ rw nothing (λ _. ignored same (inl ((str_eq_iff _ _).0 nothing)))
    | inr asked ↦ elim (Bool-cases (str_eq (get_service_request n) w.last_service_cmd)) [
      | inl old ↦ rw (asked, old) (λ _. ignored same (inr ((str_eq_iff _ _).0 old)))
      | inr new ↦
          rw (asked, new)
            (after_request-Steps (handle_request env oci_service (get_service_request n) w) same
              (different _ _ new) refl
              (handle_request-Keeps (IsCmd-IsFrame w.last_service_cmd) env oci_service
                (get_service_request n) w refl))
    ]
  ]

  react-Steps :
      (disabled last : Bool)
      → is_px_disabled n ≡ disabled
      → w.last_px_disabled ≡ last
      → Steps (react env s px_tag me_node n disabled last w)
  unfolding react
  react-Steps false true d l = install_again-Steps (λ e. cc)
  react-Steps true false d l = uninstall_if-Steps _ (λ e. cc)
  react-Steps true true d l = serve_request-Steps (l ∙ sym d)
  react-Steps false false d l = serve_request-Steps (l ∙ sym d)

  remember-Steps :
      (r : Outcome (Unit {0}) × World) (w' : World)
      → Steps r
      → continue r (λ _ v. (ret tt, record v { last_px_disabled = is_px_disabled n }))
        ≡ (ret tt, w')
      → (w'.last_px_disabled ≡ is_px_disabled n) × LabelStep env n w w'.last_service_cmd
  remember-Steps (ret u, v) w' h e = (
    ap (λ r. r.1.last_px_disabled) (sym e),
    subst (λ r. LabelStep env n w r.1.last_service_cmd) e (h refl),
  )
  remember-Steps (exited code, v) w' h e = absurd cc

  -- A notification that is dealt with is a step of the specification: the watcher remembers whether
  -- the node is disabled, and the remembered command changes only to a request that was new and
  -- succeeded, or to none behind a restart that succeeded.
  pub watch_node_labels-LabelStep :
      (w' : World)
      → watch_node_labels env s px_tag me_node n w ≡ (ret tt, w')
      → (w'.last_px_disabled ≡ is_px_disabled n) × LabelStep env n w w'.last_service_cmd
  unfolding watch_node_labels
  watch_node_labels-LabelStep w' e =
      remember-Steps (react env s px_tag me_node n (is_px_disabled n) w.last_px_disabled w) w'
        (react-Steps (is_px_disabled n) w.last_px_disabled refl refl) e
