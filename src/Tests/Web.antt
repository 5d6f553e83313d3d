-- ===== src/Tests/Web.antt =====
-- Requests to the web service.
use px_installer.Base.{
  Bool, false, none, some, List, [], ◌∷◌, ◌++◌, ◌≡◌, refl, ◌==◌, Bytes, lit, str_eq, trim_space,
  length,
}
use px_installer.Base.Result.{Result, ok, err}
use px_installer.Http.{empty_response}
use px_installer.Websvc.KubeVer.{parse_kube_ver}
use px_installer.Websvc.Spec.{
  InstallParams, generate_install_spec, fix_params, drives_of, env_of, with_version,
}
use px_installer.Websvc.Request.{
  WebRequest, first_value, is_deprecated, with_stork, parse_install_request,
}
use px_installer.Websvc.Handlers.{
  configured_tag, Site, origin_of, template_of, with_origin, handle_root,
}
use px_installer.Websvc.Handlers.Replies.{plain_reply, Asks, handle_root-origin}
use px_installer.Tests.Args.{any-All}
use px_installer.Tests.Spec.{bare_params}

-- A template of one comment line, and a decoder that reads the version only.
abbrev comment_template : InstallParams → Result Bytes Bytes
comment_template p = ok (lit "# SOURCE: " ++ (p.origin ++ lit "\n"))

abbrev decode_version : Bool → Bool → List (Bytes × Bytes) → Result Bytes InstallParams
decode_version deprecated ignore form =
    ok (record bare_params { drives = []; kube_ver = first_value (lit "kbver") form })

abbrev one_site : Site
one_site = record {
  usage_size = ok 5;
  usage_opens = none;
  usage = record { content = lit "usage"; fails = none };
  scripts = λ f. err (lit "no such file");
  templates = λ f. ok comment_template;
  read_all = λ s. ok [];
  decode = decode_version;
  directive = λ s. (lit "%!", length s);
  px_tag = lit "1.2.16";
  decimal = λ n. lit "5";
  quoted = λ s. s;
}

abbrev ask_version : Bytes → WebRequest
ask_version ver = record {
  content_length = some 0;
  raw_query = lit "kbver=" ++ ver;
  query = (lit "kbver", ver) ∷ [];
  form = ok ((lit "kbver", ver) ∷ []);
  request_headers = [];
  host = lit "install.example";
  url = lit "/?kbver=" ++ ver;
}

-- A query with a percent sign, which leaves the version empty for the decoder.
abbrev percent_request : WebRequest
percent_request = record (ask_version []) { url = lit "/?kbver=%20" }

abbrev no_version : InstallParams
no_version = record bare_params { drives = []; kube_ver = [] }

percent_asks : Asks one_site false percent_request no_version
unfolding parse_install_request is_deprecated with_stork first_value str_eq lit
percent_asks = (refl, refl)

percent_spec :
    generate_install_spec one_site.read_all one_site.templates
      (configured_tag one_site.px_tag)
      (template_of one_site false no_version)
      (with_origin one_site false percent_request no_version)
    ≡ ok (
        lit "# SOURCE: "
        ++ ((with_origin one_site false percent_request no_version).origin ++ lit "\n"))
unfolding generate_install_spec fix_params drives_of env_of with_version parse_kube_ver trim_space
    str_eq lit with_origin
percent_spec = refl

handle_root-origin_example :
    handle_root one_site false percent_request empty_response
    ≡ plain_reply 200 (lit "# SOURCE: " ++ (origin_of one_site false percent_request ++ lit "\n"))
handle_root-origin_example =
    handle_root-origin one_site false percent_request no_version (lit "# SOURCE: ") (lit "\n")
      percent_asks percent_spec (unfold lit in any-All (λ c. c == b'%') (lit "# SOURCE: ") refl)
      (unfold lit in any-All (λ c. c == b'%') (lit "\n") refl)

abbrev bad_request : WebRequest
bad_request = ask_version (lit "1.x")

abbrev bad_params : InstallParams
bad_params = record bare_params { drives = []; kube_ver = lit "1.x" }
