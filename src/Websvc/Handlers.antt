-- ===== src/Websvc/Handlers.antt =====
-- The handlers of px-spec-websvc/px-spec-websvc.go, as `main` registers them.
pub mod Replies
pub mod Refusals
use px_installer.Base.{
  ℕ, zero, suc, Bool, true, false, not, ◌&&◌, ◌||◌, Option, none, some, List, [], ◌∷◌, ◌++◌,
  if◌then◌else◌, ◌==◌, Bytes, lit, str_eq,
}
use px_installer.Base.Result.{Result, ok, err}
use px_installer.World.{Error, Stream}
use px_installer.Http.{Response, add_header, write_header, write, empty_response}
use px_installer.Websvc.Spec.{InstallParams, SpecError, message, bad_version, generate_install_spec}
use px_installer.Websvc.KubeVer.{VersionError, invalid_version}
use px_installer.Websvc.Format.{escape, print_format}
use px_installer.Websvc.Request.{WebRequest, first_value, parse_install_request}

-- `sendError`
unfoldable pub send_error : ℕ → Error → Response → Response
send_error code e r =
    write (elim e [ none ↦ lit "Unspecified error" | some text ↦ text ])
      (write_header (if code == 0 then 400 else code) r)

-- `PXTAG` as `main` leaves it.
unfoldable pub configured_tag : Bytes → Bytes
configured_tag tag = if str_eq tag [] then lit "1.2.16" else tag

-- What the handlers use of the files of the service and of the libraries.
pub record Site : Type 0 where
  -- the size of usage.html, the error of its opening, and its content
  pub usage_size : Result Bytes ℕ
  pub usage_opens : Error
  pub usage : Stream
  -- `ParseFiles` of a script, and its execution
  pub scripts : Bytes → Result Bytes (Result Bytes Bytes)
  pub templates : Bytes → Result Bytes (InstallParams → Result Bytes Bytes)
  pub read_all : Bytes → Result Bytes (List (List Bytes))
  pub decode : Bool → Bool → List (Bytes × Bytes) → Result Bytes InstallParams
  pub directive : Bytes → Bytes × ℕ
  -- `PXTAG`
  pub px_tag : Bytes
  -- `strconv.FormatInt` in base 10, and the verb %q
  pub decimal : ℕ → Bytes
  pub quoted : Bytes → Bytes

module _ (site : Site) (parse_strict : Bool) where
  -- The text of an error of `generateInstallSpec`.
  abbrev pub error_text : SpecError → Bytes
  error_text (message text) = text
  error_text (bad_version (invalid_version ver)) =
      lit "Invalid Kubernetes version "
      ++ (site.quoted ver
          ++ lit ".Please resubmit with a valid kubernetes version (e.g 1.7.8, 1.8.3)")

  -- `io.Copy` writes nothing of an empty file.
  abbrev pub copy : Stream → Response → Response
  copy s r = elim s.content [ [] ↦ r | c ∷ content ↦ write (c ∷ content) r ]

  abbrev pub after_copy : Error → Response → Response
  after_copy none r = r
  after_copy (some e) r = send_error 500 (some (lit "Could not send usage: " ++ e)) r

  abbrev pub opened : Error → Response → Response
  opened (some e) r = send_error 500 (some (lit "Could not read usage: " ++ e)) r
  opened none r = after_copy site.usage.fails (copy site.usage r)

  abbrev pub found : Result Bytes ℕ → Response → Response
  found (err e) r = send_error 500 (some (lit "Could not retrieve usage: " ++ e)) r
  found (ok size) r = opened site.usage_opens (
      add_header (lit "Content-Type") (lit "text/html")
        (add_header (lit "Content-Length") (site.decimal size) r))

  unfoldable pub send_install_usage : Response → Response
  send_install_usage r = found site.usage_size r

  abbrev pub executed : Result Bytes (Result Bytes Bytes) → Result Bytes Bytes
  executed (err e) = err e
  executed (ok text) = text

  unfoldable pub generate_script : Bytes → Result Bytes Bytes
  generate_script template_file = executed (site.scripts template_file)

  -- An error is a 400 with its text; a text is the format of `Fprintf`.
  unfoldable pub reply : Result Bytes Bytes → Response → Response
  reply (err e) r = send_error 400 (some e) r
  reply (ok content) r = write (print_format site.directive content) r

  abbrev pub as_text : Result SpecError Bytes → Result Bytes Bytes
  as_text (err e) = err (error_text e)
  as_text (ok text) = ok text

  unfoldable pub install_spec : Bytes → InstallParams → Result Bytes Bytes
  install_spec template_file p = as_text (
      generate_install_spec site.read_all site.templates (configured_tag site.px_tag) template_file
        p)

  unfoldable pub handle_script : Bytes → Response → Response
  handle_script template_file r = reply (generate_script template_file) r

  abbrev pub precheck_spec : Result Bytes InstallParams → Result Bytes Bytes
  precheck_spec (err e) = err e
  precheck_spec (ok p) = install_spec (lit "k8s-precheck.gtpl") p

  unfoldable pub handle_precheck : WebRequest → Response → Response
  handle_precheck req r =
      reply (precheck_spec (parse_install_request site.decode parse_strict req)) r

  -- `p.Origin` before its percent signs are doubled.
  unfoldable pub origin_of : WebRequest → Bytes
  origin_of req =
      let given = first_value (lit "X-Forwarded-Proto") req.request_headers in
      let proto = if str_eq given [] then lit "http" else given in
      if str_eq req.host [] then lit "unknown" else proto ++ (lit "://" ++ (req.host ++ req.url))

  unfoldable pub template_of : InstallParams → Bytes
  template_of p =
      if not (str_eq p.zero_storage []) && (str_eq p.master [] || str_eq p.master (lit "true"))
      then lit "k8s-master-worker-response.gtpl"
      else lit "k8s-pxd-spec-response.gtpl"

  unfoldable pub with_origin : WebRequest → InstallParams → InstallParams
  with_origin req p = record p { origin = escape (origin_of req) }

  abbrev pub response_spec : WebRequest → Result Bytes InstallParams → Result Bytes Bytes
  response_spec req (err e) = err e
  response_spec req (ok p) = install_spec (template_of p) (with_origin req p)

  abbrev pub is_empty : Option ℕ → Bool
  is_empty none = false
  is_empty (some zero) = true
  is_empty (some (suc n)) = false

  -- "anything to parse?"
  unfoldable pub handle_root : WebRequest → Response → Response
  handle_root req r =
      if is_empty req.content_length && str_eq req.raw_query []
      then send_install_usage r
      else reply (response_spec req (parse_install_request site.decode parse_strict req)) r

  -- The patterns of `http.HandleFunc`, where "/" takes every other path.
  unfoldable pub serve : Bytes → WebRequest → Response
  serve path req =
      if str_eq path (lit "/upgrade")
      then handle_script (lit "k8s-px-upgrade.sh") empty_response
      else if str_eq path (lit "/px-wipe")
      then handle_script (lit "px-wipe.sh") empty_response
      else if str_eq path (lit "/precheck")
      then handle_precheck req empty_response
      else handle_root req empty_response

-- `parseStrict` in `main`
unfoldable pub is_strict : List Bytes → Bool
is_strict [] = false
is_strict (program ∷ []) = false
is_strict (program ∷ a ∷ rest) = str_eq a (lit "-strict")
