-- ===== src/Websvc/Handlers/Replies.antt =====
-- What a client of "/" gets.
use px_installer.Base.{ℕ, Bool, false, ◌&&◌, some, [], ◌++◌, ◌≡◌, refl, Bytes, str_eq}
use px_installer.Base.Result.{ok}
use px_installer.Http.{Response, empty_response}
use px_installer.Websvc.Format.Escape.{IsPlain, print_format-escape}
use px_installer.Websvc.Spec.{InstallParams, generate_install_spec}
use px_installer.Websvc.Request.{WebRequest, parse_install_request}
use px_installer.Websvc.Handlers.{
  configured_tag, Site, reply, install_spec, origin_of, template_of, with_origin, is_empty,
  handle_root,
}

-- A reply with this status and body, and no header.
abbrev pub plain_reply : ℕ → Bytes → Response
plain_reply code text = record { status = some code; headers = []; body = text }

module _ (site : Site) (parse_strict : Bool) (req : WebRequest) (p : InstallParams) where
  abbrev pub Asks : Type 0
  Asks =
      (is_empty site parse_strict req.content_length && str_eq req.raw_query [] ≡ false)
      × (parse_install_request site.decode parse_strict req ≡ ok p)

  -- Where the request is parsed and the template copies the origin between texts with no percent
  -- sign, the client gets these texts around the origin as it was before its percent signs were
  -- doubled.
  pub handle_root-origin :
      (before after : Bytes)
      → Asks
      → generate_install_spec site.read_all site.templates
          (configured_tag site.px_tag)
          (template_of site parse_strict p)
          (with_origin site parse_strict req p)
        ≡ ok (before ++ ((with_origin site parse_strict req p).origin ++ after))
      → IsPlain before
      → IsPlain after
      → handle_root site parse_strict req empty_response
        ≡ plain_reply 200 (before ++ (origin_of site parse_strict req ++ after))
  unfolding handle_root reply install_spec with_origin
  handle_root-origin before after (some_request, parsed) text b a =
      rw
        (
          some_request,
          parsed,
          text,
          print_format-escape site.directive before (origin_of site parse_strict req) after b a,
        )
        refl
