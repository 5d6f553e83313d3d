-- ===== src/Websvc.antt =====
-- px-spec-websvc/px-spec-websvc.go: the web service for install specs.
pub mod KubeVer
pub mod Spec
pub mod Format
pub mod Request
pub mod Handlers
