-- ===== src/Docker.antt =====
-- px-oci-mon/utils/installer.go: the Docker client of the installer.
pub mod LogReader
pub mod Pull
pub mod RunOnce
