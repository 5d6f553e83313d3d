-- ===== src/Monitor/Frame.antt =====
-- Properties of the world that say nothing of the events, the state of the install or the time of
-- grace, over the parts of the monitor.
pub mod Switch
pub mod Docker
pub mod Install
pub mod Rest
use px_installer.Base.{
  ℕ, Bool, true, false, Option, none, some, List, [], ◌∷◌, ◌≡◌, ◌≢◌, if◌then◌else◌, Bool-cases, inl,
  inr, Bytes,
}
use px_installer.Base.Result.{Result, ok, err}
use px_installer.World.{Error, Env, Event, Node, Pod, World, InstallState, unknown}
use px_installer.World.Monad.{M, Outcome, ret, exited, continue, ask, log, ◌>>=◌}
use px_installer.Monitor.Common.{on_ok, is_exist, move_file_or_dir}
use px_installer.Service.{
  OciServiceControl, run_external, do_op, start, stop, restart, enable, disable, reload, remove,
  is_request, handle_request,
}
use px_installer.Kubernetes.{drain_chosen, drain_found, drain_px_volume_consumer_pods}

-- A property that says nothing of the events, of the time of grace, or of the state but that it is
-- known.
pub record IsFrame (holds : World → Type 0) : Type 0 where
  pub logged : (e : Event) (w : World) → holds w → holds (log e w)
  pub stated :
      (s : InstallState) (w : World) → s ≢ unknown → holds w → holds (record w { state = s })
  pub graced : (g : Option ℕ) (w : World) → holds w → holds (record w { errors_grace = g })

abbrev pub Keeps : (World → Type 0) → {A : Type 0} → M A → Type 0
Keeps holds m = (w : World) → holds w → holds (m w).1

module _ {holds : World → Type 0} where
  pub continue-Keeps :
      {A B : Type 0} (r : Outcome A × World) (f : A → M B)
      → holds r.1
      → ((a : A) → Keeps holds (f a))
      → holds (continue r f).1
  continue-Keeps (ret a, w) f h k = k a w h
  continue-Keeps (exited code, w) f h k = h

  pub bind-Keeps :
      {A B : Type 0} (m : M A) (f : A → M B)
      → Keeps holds m
      → ((a : A) → Keeps holds (f a))
      → Keeps holds (m >>= f)
  bind-Keeps m f k l w h = continue-Keeps (m w) f (k w h) l

  pub if-Keeps :
      {A : Type 0} (b : Bool) (m k : M A)
      → Keeps holds m
      → Keeps holds k
      → Keeps holds (if b then m else k)
  if-Keeps true m k a b w h = a w h
  if-Keeps false m k a b w h = b w h

  pub on_ok-Keeps : (e : Error) (k : M Error) → Keeps holds k → Keeps holds (on_ok e k)
  on_ok-Keeps none k l w h = l w h
  on_ok-Keeps (some message) k l w h = h

module _ {holds : World → Type 0} (frame : IsFrame holds) (env : Env) where
  pub run_external-Keeps :
      (o : OciServiceControl) (name : Bytes) (params : List Bytes)
      → Keeps holds (run_external env o name params)
  unfolding run_external
  run_external-Keeps o name params w h = frame.logged _ w h

  pub do_op-Keeps :
      (o : OciServiceControl) (op : Bytes) (excluded : List Bytes)
      → Keeps holds (do_op env o op excluded)
  unfolding do_op run_external
  do_op-Keeps o op excluded w h = frame.logged _ w h

  pub start-Keeps : (o : OciServiceControl) → Keeps holds (start env o)
  unfolding start do_op run_external
  start-Keeps o w h = frame.logged _ w h

  pub stop-Keeps : (o : OciServiceControl) → Keeps holds (stop env o)
  unfolding stop do_op run_external
  stop-Keeps o w h = frame.logged _ w h

  pub restart-Keeps : (o : OciServiceControl) → Keeps holds (restart env o)
  unfolding restart do_op run_external
  restart-Keeps o w h = frame.logged _ w h

  pub enable-Keeps : (o : OciServiceControl) → Keeps holds (enable env o)
  unfolding enable do_op run_external
  enable-Keeps o w h = frame.logged _ w h

  pub disable-Keeps : (o : OciServiceControl) → Keeps holds (disable env o)
  unfolding disable do_op run_external
  disable-Keeps o w h = frame.logged _ w h

  pub reload-Keeps : (o : OciServiceControl) → Keeps holds (reload env o)
  unfolding reload run_external
  reload-Keeps o w h = frame.logged _ w h

  pub remove-Keeps : (o : OciServiceControl) → Keeps holds (remove env o)
  unfolding remove run_external
  remove-Keeps o w h = frame.logged _ _ (frame.logged _ w h)

  pub handle_request-Keeps :
      (o : OciServiceControl) (op : Bytes) → Keeps holds (handle_request env o op)
  unfolding handle_request do_op run_external
  handle_request-Keeps o op w h = elim (Bool-cases (is_request env o op)) [
    | inl known ↦ rw known (frame.logged _ w h)
    | inr other ↦ rw other h
  ]

  drain_chosen-Keeps : (n : Node) (pods : List Pod) → Keeps holds (drain_chosen env n pods)
  unfolding drain_chosen
  drain_chosen-Keeps n [] w h = h
  drain_chosen-Keeps n (p ∷ pods) w h = frame.logged _ w h

  drain_found-Keeps :
      (n : Node) (drain_all : Bool) (found : Result Bytes (List Pod))
      → Keeps holds (drain_found env n drain_all found)
  drain_found-Keeps n drain_all (err message) w h = h
  drain_found-Keeps n drain_all (ok found) w h = drain_chosen-Keeps n _ w h

  pub drain_px_volume_consumer_pods-Keeps :
      (n : Node) (drain_all : Bool) → Keeps holds (drain_px_volume_consumer_pods env n drain_all)
  unfolding drain_px_volume_consumer_pods
  drain_px_volume_consumer_pods-Keeps n drain_all w h =
      drain_found-Keeps n drain_all _ _ (frame.logged _ w h)

  pub is_exist-Keeps : (path : Bytes) → Keeps holds (is_exist env path)
  unfolding is_exist
  is_exist-Keeps path w h = frame.logged _ w h

  pub move_file_or_dir-Keeps : (src dest : Bytes) → Keeps holds (move_file_or_dir env src dest)
  unfolding move_file_or_dir
  move_file_or_dir-Keeps src dest w h = frame.logged _ w h
