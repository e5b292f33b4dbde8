-- ===== src/Gateway.antt =====
-- packages/gateway/src/index.ts: what of a request and of a response the gateway passes on. A header name
-- is a text; Node gives the names of a message in lower case, with units below 256. The reading of a
-- URL is a parameter.
pub mod Headers
pub mod Hosts
mod Tests
use pi_container.Prelude.Texts.{codes, same_text, to_lower, trim, starts_with, before, among}
use pi_container.Egress.Text.{Text, split_text}
use pi_container.Prelude.{
  List, Option, some, select, ℕ, Bool, ◌∷◌, none, not, [], leb, ltb, ◌||◌, any, if◌then◌else◌, ◌++◌,
  ◌&&◌, length, all, is_null, ◌==◌, map,
}

pub data HeaderValue : Type 0 where
  single : Text → HeaderValue
  several : List Text → HeaderValue

-- An object's entries in their order; a value may be `undefined`.
abbrev pub Headers : Type 0
Headers = List (Text × Option HeaderValue)

abbrev pub hop_by_hop_headers : List Text
hop_by_hop_headers =
    codes "connection"
    ∷ codes "keep-alive"
    ∷ codes "proxy-authenticate"
    ∷ codes "proxy-authorization"
    ∷ codes "te"
    ∷ codes "trailer"
    ∷ codes "transfer-encoding"
    ∷ codes "upgrade"
    ∷ []

abbrev pub next_internal_headers : List Text
next_internal_headers =
    codes "x-prerender-revalidate"
    ∷ codes "x-prerender-revalidate-if-generated"
    ∷ codes "x-middleware-subrequest"
    ∷ codes "x-middleware-invoke"
    ∷ []

abbrev pub next_internal_prefixes : List Text
next_internal_prefixes = codes "x-invoke-" ∷ []

abbrev pub platform_cookie_names : List Text
platform_cookie_names = codes "platform-session" ∷ codes "__Host-platform-session" ∷ []

unfoldable pub header_of : Text → Headers → Option HeaderValue
header_of name [] = none
header_of name ((key, value) ∷ headers) =
    if same_text name key then value else header_of name headers

-- `result[name] = value`.
unfoldable pub put : Text → HeaderValue → Headers → Headers
put name value [] = (name, some value) ∷ []
put name value ((key, old) ∷ headers) =
    if same_text name key then (key, some value) ∷ headers else (key, old) ∷ put name value headers

-- `delete result[name]`.
unfoldable pub remove : Text → Headers → Headers
remove name headers =
    select (λ (entry : Text × Option HeaderValue). not (same_text name entry.0)) headers

abbrev join_text : ℕ → List Text → Text
join_text separator [] = []
join_text separator (part ∷ []) = part
join_text separator (part ∷ next ∷ parts) = part ++ separator ∷ join_text separator (next ∷ parts)

abbrev combined : Option HeaderValue → Text
combined none = []
combined (some (single text)) = text
combined (some (several texts)) = join_text b',' texts

-- `[!#$%&'*+.^_`|~0-9a-z-]`.
abbrev is_token_unit : ℕ → Bool
is_token_unit c =
    (leb b'0' c && leb c b'9')
    || (leb b'a' c && leb c b'z')
    || any (◌==◌ c) (codes "!#$%&'*+.^_`|~-")

abbrev is_token : Text → Bool
is_token text = ltb 0 (length text) && all is_token_unit text

pub connection_header_tokens : Headers → List Text
unfolding header_of split_text
connection_header_tokens headers = select is_token (
    map (λ (part : Text). to_lower (trim part))
      (split_text b',' (combined (header_of (codes "connection") headers))))

-- A name that a request does not keep, in lower case.
pub is_blocked : Headers → Headers → Text → Bool
unfolding connection_header_tokens
is_blocked headers replacements name =
    among (connection_header_tokens headers) name
    || among hop_by_hop_headers name
    || among next_internal_headers name
    || any (λ (entry : Text × Option HeaderValue). same_text name (to_lower entry.0)) replacements

abbrev pub is_internal : Text → Bool
is_internal name = any (λ prefix. starts_with prefix name) next_internal_prefixes

abbrev pub is_kept : Headers → Headers → Text × Option HeaderValue → Bool
is_kept headers replacements (name, value) =
    not (is_internal (to_lower name))
    && not (is_null value)
    && not (is_blocked headers replacements (to_lower name))

put_defined : Text → Option HeaderValue → Headers → Headers
unfolding put
put_defined name none headers = headers
put_defined name (some value) headers = put name value headers

pub put_all : Headers → Headers → Headers
unfolding put_defined
put_all [] headers = headers
put_all ((name, value) ∷ replacements) headers =
    put_all replacements (put_defined name value headers)

unfoldable pub sanitize_request_headers : Headers → Headers → Headers
unfolding is_blocked put_all
sanitize_request_headers headers replacements =
    put_all replacements (select (is_kept headers replacements) headers)

abbrev pub cookie_name : Text → Text
cookie_name part = trim (before b'=' part)

abbrev pub is_platform_cookie : Text → Bool
is_platform_cookie part = among platform_cookie_names (cookie_name part)

unfoldable pub strip_platform_cookies : Option Text → Option Text
unfolding split_text
strip_platform_cookies none = none
strip_platform_cookies (some header) =
    let result =
      trim (
        join_text b';' (select (λ part. not (is_platform_cookie part)) (split_text b';' header))) in
    if length result == 0 then none else some result

abbrev pub is_platform_set_cookie : Text → Bool
is_platform_set_cookie value = is_platform_cookie (before b';' value)

-- `headers["set-cookie"]`, which Node gives as an array.
abbrev set_cookies : Option HeaderValue → List Text
set_cookies none = []
set_cookies (some (single text)) = text ∷ []
set_cookies (some (several texts)) = texts

pub with_set_cookie : List Text → Headers → Headers
unfolding put remove
with_set_cookie [] headers = remove (codes "set-cookie") headers
with_set_cookie (cookie ∷ cookies) headers =
    put (codes "set-cookie") (several (cookie ∷ cookies)) headers

-- `new URL(location, target)`: the origin and the rest, or `none` if it throws.
pub record LocationUrl : Type 0 where
  pub origin : Text
  pub path_and_query : Text

-- The value of `headers.location` is one text.
pub with_location : Option Text → Text → Option LocationUrl → Headers → Headers
unfolding put remove
with_location none target url headers = headers
with_location (some public_origin) target none headers = remove (codes "location") headers
with_location (some public_origin) target (some url) headers =
    if same_text url.origin target
    then put (codes "location") (single (public_origin ++ url.path_and_query)) headers
    else headers

module _ (read_url : Text → Option LocationUrl) where
  relocated : Option HeaderValue → Option Text → Text → Headers → Headers
  unfolding with_location
  relocated none public_origin target headers = headers
  relocated (some value) public_origin target headers =
      with_location public_origin target (read_url (combined (some value))) headers

  pub sanitize_response_headers : Headers → Text → Option Text → Headers
  unfolding sanitize_request_headers with_set_cookie relocated header_of
  sanitize_response_headers headers target public_origin =
      relocated (header_of (codes "location") headers) public_origin target (
        with_set_cookie
          (select (λ value. not (is_platform_set_cookie value))
            (set_cookies (header_of (codes "set-cookie") headers)))
          (sanitize_request_headers headers []))

-- `request.url`, if it is an absolute path.
unfoldable pub target_path : Option Text → Option Text
target_path none = none
target_path (some path) =
    if not (starts_with (codes "/") path) || starts_with (codes "//") path then none else some path
