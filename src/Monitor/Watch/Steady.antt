-- ===== src/Monitor/Watch/Steady.antt =====
-- The watcher over several notifications.
use px_installer.Base.{
  Bool, true, false, [], ◌≡◌, ◌⊎◌, inl, inr, refl, ◌∙◌, ap, arith, Bytes, str_eq, str_eq_iff,
}
use px_installer.World.{Env, Node, World}
use px_installer.World.Monad.{Outcome, ret, exited, continue}
use px_installer.Kubernetes.{is_px_disabled, get_service_request}
use px_installer.Monitor.Args.{Settings}
use px_installer.Monitor.Watch.{serve_request, react, watch_node_labels}

module _ (env : Env) (settings : Settings) (px_tag : Bytes) (me_node node : Node) where
  abbrev set_last : World → Outcome (Unit {0}) × World
  set_last w = (ret tt, record w { last_px_disabled = is_px_disabled node })

  finish-last :
      (r : Outcome (Unit {0}) × World) (w' : World)
      → continue r (λ _. set_last) ≡ (ret tt, w')
      → w'.last_px_disabled ≡ is_px_disabled node
  finish-last (ret u, w) w' e = ground arith
  finish-last (exited c, w) w' e = cc

  watch-last :
      (w w' : World)
      → watch_node_labels env settings px_tag me_node node w ≡ (ret tt, w')
      → w'.last_px_disabled ≡ is_px_disabled node
  unfolding watch_node_labels
  watch-last w w' e = finish-last (react env settings px_tag me_node node _ _ w) w' e

  -- No request is left to serve.
  abbrev pub Served : World → Type 0
  Served w = (get_service_request node ≡ []) ⊎ (get_service_request node ≡ w.last_service_cmd)

  serve_request-Served :
      (w : World)
      → Served w
      → serve_request env settings px_tag me_node node
          (get_service_request node)
          w.last_service_cmd
          w
        ≡ (ret tt, w)
  unfolding serve_request
  serve_request-Served w (inl none_asked) = rw none_asked (unfold str_eq in refl)
  serve_request-Served w (inr same) =
      ground (arith, str_eq_iff (get_service_request node) w.last_service_cmd)

  react-steady :
      (w : World) (b : Bool)
      → react env settings px_tag me_node node b b w
        ≡ serve_request env settings px_tag me_node node
            (get_service_request node)
            w.last_service_cmd
            w
  unfolding react
  react-steady w true = refl
  react-steady w false = refl

  set_last-same : (w : World) → w.last_px_disabled ≡ is_px_disabled node → set_last w ≡ (ret tt, w)
  set_last-same w e = ground arith

  watch-steady :
      (w : World)
      → w.last_px_disabled ≡ is_px_disabled node
      → Served w
      → watch_node_labels env settings px_tag me_node node w ≡ (ret tt, w)
  unfolding watch_node_labels
  watch-steady w same served =
      ap (λ r. continue r (λ _. set_last))
        (ap (λ b. react env settings px_tag me_node node (is_px_disabled node) b w) same
          ∙ react-steady w (is_px_disabled node)
          ∙ serve_request-Served w served)
      ∙ set_last-same w same

  -- Once a notification has been dealt with and its request, if any, is the last command, the same
  -- labels again do nothing at all: no install, no uninstall, no command.
  pub watch_node_labels-again :
      (w w' : World)
      → watch_node_labels env settings px_tag me_node node w ≡ (ret tt, w')
      → Served w'
      → watch_node_labels env settings px_tag me_node node w' ≡ (ret tt, w')
  watch_node_labels-again w w' e served = watch-steady w' (watch-last w w' e) served
