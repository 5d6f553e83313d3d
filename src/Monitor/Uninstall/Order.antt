-- ===== src/Monitor/Uninstall/Order.antt =====
-- The steps of an uninstall, and where it stops.
use px_installer.Base.{none, some, ◌≡◌, refl, Bool-cases, inl, inr}
use px_installer.World.{Error, Env, World}
use px_installer.World.Monad.{Outcome, ret, exited, continue, pure}
use px_installer.World.Returns.{Returns}
use px_installer.Service.{stop, disable, remove, run_external, do_op}
use px_installer.Monitor.Common.{oci_service, addtl_svc_name, service_file, is_exist}
use px_installer.Monitor.Uninstall.{remove_addtl, after_remove, do_uninstall}

module _ (env : Env) where
  pub remove_addtl-Returns : (w : World) → Returns (remove_addtl env w)
  unfolding remove_addtl is_exist stop disable do_op run_external
  remove_addtl-Returns w =
      elim (Bool-cases (env.is_missing w.events (service_file addtl_svc_name))) [
        | inl gone ↦ rw gone tt
        | inr there ↦ rw there tt
      ]

  then-none :
      (r : Outcome (Unit {0}) × World)
      → Returns r
      → continue {B = Error} r (λ _. pure none) ≡ (ret none, r.1)
  then-none (ret u, w) h = refl
  then-none (exited code, w) h = absurd h

  -- An uninstall stops the service, disables it and removes its files, in this order. The first of
  -- these steps that fails ends it with that step's error and nothing after the step is done; if
  -- none fails the uninstall succeeds, whatever happens to the additional service.
  pub do_uninstall-first_error :
      (w w1 w2 w3 : World) (e1 e2 e3 : Error)
      → stop env oci_service w ≡ (ret e1, w1)
      → disable env oci_service w1 ≡ (ret e2, w2)
      → remove env oci_service w2 ≡ (ret e3, w3)
      → do_uninstall env w ≡ elim e1 [
        | some m ↦ (ret (some m), w1)
        | none ↦ elim e2 [
          | some m ↦ (ret (some m), w2)
          | none ↦ elim e3 [
            | some m ↦ (ret (some m), w3)
            | none ↦ (ret none, (remove_addtl env w3).1)
          ]
        ]
      ]
  unfolding do_uninstall after_remove
  do_uninstall-first_error w w1 w2 w3 (some m) e2 e3 s d r = rw s refl
  do_uninstall-first_error w w1 w2 w3 none (some m) e3 s d r = rw (s, d) refl
  do_uninstall-first_error w w1 w2 w3 none none (some m) s d r = rw (s, d, r) refl
  do_uninstall-first_error w w1 w2 w3 none none none s d r =
      rw (s, d, r) (then-none (remove_addtl env w3) (remove_addtl-Returns w3))
