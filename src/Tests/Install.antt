-- ===== src/Tests/Install.antt =====
-- An install: its command line, its decision, and the uninstall by a label.
use px_installer.Docker.LogReader.Frames.{Frame, pieces_of, rendered}
use px_installer.Monitor.Install.Cordon.{at_wait, run_installer-contains}
use px_installer.Base.{
  ◌+◌, ◌<◌, ◌^◌, arith, length, contains, true, false, List, [], ◌∷◌, ◌≡◌, refl, Bytes, lit, All,
}
use px_installer.World.{Env, Node, wait_container}
use px_installer.Base.Result.{ok}
use px_installer.World.Monad.{ret}
use px_installer.Inspect.{SimpleContainerConfig}
use px_installer.Kubernetes.{enablement_key}
use px_installer.Monitor.Install.{mount_args, run_installer}
use px_installer.Monitor.Install.CommandLine.{PassedOn, mount_args-PassedOn}
use px_installer.Tests.Host.{plain_host, start_world, labelled_node}

abbrev some_mounts : List Bytes
some_mounts = lit "/etc/pwx:/etc/pwx" ∷ lit "/data:/data" ∷ lit "/var/run/docker.sock:/s" ∷ []

mount_args-PassedOn_example : PassedOn some_mounts (mount_args some_mounts)
mount_args-PassedOn_example = mount_args-PassedOn some_mounts

abbrev no_config : SimpleContainerConfig
no_config = record { args = []; mounts = []; env_list = []; labels = [] }

abbrev leaving_node : Node
leaving_node = labelled_node enablement_key (lit "rm")

abbrev reboot_frames : List Frame
reboot_frames = record { stream = 1; payload = lit "px: require reboot now" } ∷ []

abbrev reboot_host : Env
reboot_host = record plain_host { logs = λ h i. ok (pieces_of reboot_frames) }

reboot_frames-All : All (λ f. length (Frame.payload f) + 2 < 2 ^ 32) reboot_frames
unfolding lit
reboot_frames-All = (omega arith, tt)

run_installer-contains_example :
    run_installer reboot_host false [] (lit "px:1") true start_world ≡ (
      ret (contains (rendered reboot_frames) (lit " require reboot ")),
      record start_world {
        events =
            wait_container (lit "c1")
            ∷ at_wait reboot_host false [] (lit "px:1") (lit "c1") start_world;
      },
    )
run_installer-contains_example =
    run_installer-contains reboot_host false [] (lit "px:1") (lit "c1") start_world reboot_frames 0
      reboot_frames-All refl refl refl refl
