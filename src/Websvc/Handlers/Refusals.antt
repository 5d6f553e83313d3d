-- ===== src/Websvc/Handlers/Refusals.antt =====
-- What a client of "/" gets for a version that is not accepted.
use px_installer.Base.{Bool, ◌++◌, ◌≡◌, Bytes, lit, trim_space}
use px_installer.Base.Result.{Result, ok, err}
use px_installer.Websvc.Spec.{InstallParams, message, drives_of, env_of}
use px_installer.Websvc.Handlers.{configured_tag, Site, install_spec}

-- The text for a request whose version is not accepted: that of the first thing that goes wrong,
-- of the template, the list of devices, the list of variables, and the version.
pub data Refused (site : Site) (template : Bytes) (p : InstallParams) : Bytes → Type 0 where
  no_template : {m : Bytes} → site.templates template ≡ err m → Refused site template p m
  bad_drives :
      {t : InstallParams → Result Bytes Bytes} {m : Bytes}
      → site.templates template ≡ ok t
      → drives_of site.read_all site.templates (configured_tag site.px_tag) p ≡ err (message m)
      → Refused site template p m
  bad_env :
      {t : InstallParams → Result Bytes Bytes} {drives m : Bytes}
      → site.templates template ≡ ok t
      → drives_of site.read_all site.templates (configured_tag site.px_tag) p ≡ ok drives
      → env_of site.read_all site.templates (configured_tag site.px_tag) p ≡ err (message m)
      → Refused site template p m
  bad_kube_ver :
      {t : InstallParams → Result Bytes Bytes} {drives env : Bytes}
      → site.templates template ≡ ok t
      → drives_of site.read_all site.templates (configured_tag site.px_tag) p ≡ ok drives
      → env_of site.read_all site.templates (configured_tag site.px_tag) p ≡ ok env
      → Refused site template p (
          lit "Invalid Kubernetes version "
          ++ (site.quoted (trim_space p.kube_ver)
              ++ lit ".Please resubmit with a valid kubernetes version (e.g 1.7.8, 1.8.3)"))

module _ (site : Site) (parse_strict : Bool) where
  abbrev site_tag : Bytes
  site_tag = configured_tag site.px_tag

  -- What a request with a version that is not accepted is refused with.
  abbrev Refusal : Bytes → InstallParams → Bytes → Type 0
  Refusal template p origin =
      (text : Bytes) × (install_spec site parse_strict template (record p { origin = origin })
        ≡ err text)
      × Refused site template p text
