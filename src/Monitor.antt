-- ===== src/Monitor.antt =====
-- px-oci-mon/main.go: the OCI monitor's program.
pub mod Args
pub mod Restart
pub mod Common
pub mod Uninstall
pub mod Switch
pub mod Finalize
pub mod RootDir
pub mod Mounted
pub mod Install
pub mod DoInstall
pub mod Watch
pub mod Start
pub mod Frame
pub mod Process
