-- ===== src/Http.antt =====
-- What the two HTTP services use of package net/http.
use px_installer.Base.{ℕ, Option, none, some, List, [], ◌∷◌, ◌++◌, Bytes, lit}

-- A response as `net/http` builds it: the first status counts, and the headers go out with it.
pub record Response : Type 0 where
  pub status : Option ℕ
  pub headers : List (Bytes × Bytes)
  pub body : Bytes

abbrev pub add_header : Bytes → Bytes → Response → Response
add_header name value r = elim r.status [
  | none ↦ record r { headers = r.headers ++ ((name, value) ∷ []) }
  | some code ↦ r
]

abbrev pub write_header : ℕ → Response → Response
write_header code r = elim r.status [ none ↦ record r { status = some code } | some earlier ↦ r ]

abbrev pub write : Bytes → Response → Response
write content r = let r' = write_header 200 r in record r' { body = r'.body ++ content }

pub data Method : Type 0 where
  head_method get_method post_method other_method : Method

abbrev pub empty_response : Response
empty_response = record { status = none; headers = []; body = [] }

-- `http.Error`
abbrev pub http_error : ℕ → Bytes → Response → Response
http_error code message r = write (message ++ lit "\n") (
    write_header code (
      add_header (lit "X-Content-Type-Options") (lit "nosniff")
        (add_header (lit "Content-Type") (lit "text/plain; charset=utf-8") r)))
