-- ===== src/Launcher/Signals/Order.antt =====
-- What the handlers do to the containers that are listed.
use px_installer.Base.{Bool, true, false, none, some, List, [], ◌∷◌, ◌≡◌, ◌≢◌, refl, subst, Bytes}
use px_installer.Base.Result.{ok}
use px_installer.World.{Error}
use px_installer.World.Monad.{Outcome, ret, exited, continue, exit}
use px_installer.Launcher.{
  Answers, Call, Container, Mon, Run, stop_container, kill_container, remove_container,
  get_docker_client, get_px_containers,
}
use px_installer.Launcher.Rounds.{Rounds, all_done, kept, ended}
use px_installer.Launcher.Signals.{
  after_removal, after_stop, stop_all, handler_sig_term, after_kill, kill_all, handler_sig_kill,
}

-- A loop that returns, and what it did to the containers.
abbrev Did : (List Call → List Call → Type 0) → List Call → Outcome (Unit {0}) × Mon → Type 0
Did rounds before r = (r.0 ≡ ret tt) × rounds before r.1.calls

-- The loop over the containers behind the first one.
module _ (halt : Bytes → Call) (halted : List Call → Bytes → Error) (force : Bool) (c : Container)
    (cs : List Container) (k : Run (Unit {0}))
    (rest : (w : Mon) → Did (Rounds halt halted force cs) w.calls (k w)) where
  kept-Did :
      (before : List Call) (w : Mon)
      → halted before c.id ≢ none
      → w.calls ≡ halt c.id ∷ before
      → Did (Rounds halt halted force (c ∷ cs)) before (k w)
  kept-Did before w failed same = (
    (rest w).0,
    kept c cs before _ failed
        (subst (λ calls. Rounds halt halted force cs calls (k w).1.calls) same (rest w).1),
  )

  removed-Did :
      (before : List Call) (w : Mon)
      → halted before c.id ≡ none
      → w.calls ≡ remove_container c.id force ∷ halt c.id ∷ before
      → Did (Rounds halt halted force (c ∷ cs)) before (k w)
  removed-Did before w stopped same = (
    (rest w).0,
    ended c cs before _ stopped
        (subst (λ calls. Rounds halt halted force cs calls (k w).1.calls) same (rest w).1),
  )

  after_removal-Did :
      (answers : Answers) (before : List Call) (e : Error) (w : Mon)
      → halted before c.id ≡ none
      → w.calls ≡ remove_container c.id force ∷ halt c.id ∷ before
      → Did
          (Rounds halt halted force (c ∷ cs))
          before
          (continue (after_removal answers c e w) (λ _. k))
  after_removal-Did answers before (some message) w = removed-Did before _
  after_removal-Did answers before none w = removed-Did before _

module _ (answers : Answers) where
  abbrev pub StopRounds : List Container → List Call → List Call → Type 0
  StopRounds = Rounds (λ id. stop_container id 30) answers.stopped false

  abbrev pub KillRounds : List Container → List Call → List Call → Type 0
  KillRounds = Rounds kill_container answers.killed true

  after_stop-Did :
      (c : Container) (cs : List Container) (k : Run (Unit {0})) (e : Error) (w : Mon)
      → ((w' : Mon) → Did (StopRounds cs) w'.calls (k w'))
      → answers.stopped w.calls c.id ≡ e
      → Did (StopRounds (c ∷ cs)) w.calls (
          continue
            (after_stop answers c e (record w { calls = stop_container c.id 30 ∷ w.calls }))
            (λ _. k))
  after_stop-Did c cs k (some message) w h failed =
      kept-Did _ _ false c cs k h w.calls _ (λ ok. cc) refl
  after_stop-Did c cs k none w h stopped =
      after_removal-Did _ _ false c cs k h answers w.calls _ _ stopped refl

  stop_all-Did :
      (cs : List Container) (w : Mon) → Did (StopRounds cs) w.calls (stop_all answers cs w)
  unfolding stop_all
  stop_all-Did [] w = (refl, all_done w.calls)
  stop_all-Did (c ∷ cs) w =
      after_stop-Did c cs (stop_all answers cs) (answers.stopped w.calls c.id)
        (record w { printed = _ }) (stop_all-Did cs) refl

  after_kill-Did :
      (c : Container) (cs : List Container) (k : Run (Unit {0})) (e : Error) (w : Mon)
      → ((w' : Mon) → Did (KillRounds cs) w'.calls (k w'))
      → answers.killed w.calls c.id ≡ e
      → Did (KillRounds (c ∷ cs)) w.calls (
          continue
            (after_kill answers c e (record w { calls = kill_container c.id ∷ w.calls }))
            (λ _. k))
  after_kill-Did c cs k (some message) w h failed =
      kept-Did _ _ true c cs k h w.calls _ (λ ok. cc) refl
  after_kill-Did c cs k none w h killed =
      after_removal-Did _ _ true c cs k h answers w.calls _ _ killed refl

  kill_all-Did :
      (cs : List Container) (w : Mon) → Did (KillRounds cs) w.calls (kill_all answers cs w)
  unfolding kill_all
  kill_all-Did [] w = (refl, all_done w.calls)
  kill_all-Did (c ∷ cs) w =
      after_kill-Did c cs (kill_all answers cs) (answers.killed w.calls c.id)
        (record w { printed = _ }) (kill_all-Did cs) refl

  -- When Docker answers and lists these containers.
  abbrev pub Lists : Mon → List Container → Mon → Type 0
  Lists w cs w2 =
      (w1 : Mon) × (get_docker_client answers w ≡ (ret (ok tt), w1))
      × (get_px_containers answers w1 ≡ (ret (ok cs), w2))

  -- If Docker lists its containers, the handler of SIGTERM stops each of them once, in the order of
  -- the list, whether others failed or not, removes a container without force right after its stop
  -- succeeded and never otherwise, and returns.
  pub handler_sig_term-StopRounds :
      (cs : List Container) (w w2 : Mon)
      → Lists w cs w2
      → ((handler_sig_term answers w).0 ≡ ret tt)
        × StopRounds cs w2.calls (handler_sig_term answers w).1.calls
  unfolding handler_sig_term
  handler_sig_term-StopRounds cs w w2 (w1, client, listed) =
      rw (client, listed) (stop_all-Did cs w2)

  then-exit :
      (rounds : List Call → List Call → Type 0) (before : List Call) (r : Outcome (Unit {0}) × Mon)
      → Did rounds before r
      → ((continue {B = Unit {0}} r (λ _. exit 0)).0 ≡ exited 0)
        × rounds before (continue {B = Unit {0}} r (λ _. exit 0)).1.calls
  then-exit rounds before (ret u, w) (returns, d) = (refl, d)
  then-exit rounds before (exited code, w) (returns, d) = absurd cc

  -- If Docker lists its containers, the handler of SIGKILL kills each of them once, in the order
  -- of the list, removes a container with force right after its kill succeeded and never
  -- otherwise, and ends the process with status 0, even if all of this failed.
  pub handler_sig_kill-KillRounds :
      (cs : List Container) (w w2 : Mon)
      → Lists w cs w2
      → ((handler_sig_kill answers w).0 ≡ exited 0)
        × KillRounds cs w2.calls (handler_sig_kill answers w).1.calls
  unfolding handler_sig_kill
  handler_sig_kill-KillRounds cs w w2 (w1, client, listed) =
      rw (client, listed)
        (then-exit (KillRounds cs) w2.calls (kill_all answers cs w2) (kill_all-Did cs w2))
