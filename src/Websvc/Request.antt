-- ===== src/Websvc/Request.antt =====
-- `parseInstallRequest` of px-spec-websvc/px-spec-websvc.go.
use px_installer.Base.{
  ℕ, Bool, true, not, ◌&&◌, Option, List, [], ◌∷◌, ◌++◌, if◌then◌else◌, Bytes, lit, str_eq,
}
use px_installer.Base.Result.{Result, ok, err}
use px_installer.Websvc.Spec.{InstallParams}

-- What is looked at of an `http.Request`. The query and the form are given as package net/url
-- parses them; `none` for the length is -1, an unknown length.
pub record WebRequest : Type 0 where
  pub content_length : Option ℕ
  pub raw_query : Bytes
  pub query : List (Bytes × Bytes)
  pub form : Result Bytes (List (Bytes × Bytes))
  pub request_headers : List (Bytes × Bytes)
  pub host : Bytes
  pub url : Bytes

-- `Get` of a query or of headers: the first value, or "".
unfoldable pub first_value : Bytes → List (Bytes × Bytes) → Bytes
first_value key [] = []
first_value key ((k, v) ∷ values) = if str_eq k key then v else first_value key values

-- The tag by which the decoder finds the fields: `deprecated` in place of `schema`.
unfoldable pub is_deprecated : WebRequest → Bool
is_deprecated r =
    not (str_eq (first_value (lit "cluster") r.query) [])
    && not (str_eq (first_value (lit "kvdb") r.query) [])

-- Stork is on, unless the query says something of it.
unfoldable pub with_stork : WebRequest → InstallParams → InstallParams
with_stork r p =
    if str_eq (first_value (lit "stork") r.query) [] then record p { start_stork = true } else p

-- `decode deprecated ignore_unknown form` is the schema decoder.
module _ (decode : Bool → Bool → List (Bytes × Bytes) → Result Bytes InstallParams) where
  abbrev pub decoded : WebRequest → Result Bytes InstallParams → Result Bytes InstallParams
  decoded r (err message) = err (lit "Could not decode form: " ++ message)
  decoded r (ok config) = ok (with_stork r config)

  abbrev pub of_form :
      Bool → WebRequest → Result Bytes (List (Bytes × Bytes)) → Result Bytes InstallParams
  of_form parse_strict r (err message) = err (lit "Could not parse form: " ++ message)
  of_form parse_strict r (ok form) = decoded r (decode (is_deprecated r) (not parse_strict) form)

  unfoldable pub parse_install_request : Bool → WebRequest → Result Bytes InstallParams
  parse_install_request parse_strict r = of_form parse_strict r r.form
