-- ===== src/Tests.antt =====
-- Runs of the definitions, and the theorems applied at concrete inputs.
mod Host
mod Disk
mod Switch
mod Units
mod Args
mod Logs
mod Service
mod Install
mod Spec
mod Web
mod Launch
mod Start
mod Done
