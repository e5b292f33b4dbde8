-- ===== src/Gateway/Tests.antt =====
-- The host of a Workspace at the domain w.example, and the headers of a request and a response.
use pi_container.Prelude.Texts.{codes}
use pi_container.Egress.Text.{Text}
use pi_container.Gateway.{
  Headers, single, several, LocationUrl, sanitize_request_headers, sanitize_response_headers,
  header_of, strip_platform_cookies, Bool, some, Option, [], length, none,
}
use pi_container.Gateway.Headers.{
  Passes, AllowedCookies, sanitize_request_headers-Passes, sanitize_response_headers-Allowed,
}
use pi_container.Gateway.Hosts.{
  WorkspaceBaseUrl, workspace_host, workspace_id_from_host, workspace_id_from_host-workspace_host,
}
use pi_container.Prelude.{◌≡◌, All, ◌∷◌, refl, ◌==◌}

abbrev base : WorkspaceBaseUrl
base = record { protocol = codes "https:"; hostname = codes "w.example"; port = codes "8443" }

abbrev is_short : Text → Bool
is_short id = length id == 2

abbrev header : Text
header = codes "a1.w.example:8443"

workspace_id_from_host-workspace_host_example :
    workspace_id_from_host is_short base (workspace_host is_short base (codes "a1"))
    ≡ some (codes "a1")
workspace_id_from_host-workspace_host_example =
    workspace_id_from_host-workspace_host is_short base (codes "a1") refl refl refl

accepted : workspace_id_from_host is_short base (some header) ≡ some (codes "a1")
unfolding workspace_id_from_host
accepted = refl

abbrev request : Headers
request =
    (codes "connection", some (single (codes "Close, X-Trace")))
    ∷ (codes "x-trace", some (single (codes "1")))
    ∷ (codes "accept", some (single (codes "text/html")))
    ∷ (codes "x-invoke-path", some (single (codes "/")))
    ∷ []

abbrev response : Headers
response =
    (codes "set-cookie", some (several (codes "platform-session=1; Path=/" ∷ codes "a=b" ∷ [])))
    ∷ (codes "location", some (single (codes "/next")))
    ∷ []

abbrev never : Text → Option LocationUrl
never text = none

sanitize_request_headers-Passes_example :
    All (Passes request []) (sanitize_request_headers request [])
sanitize_request_headers-Passes_example = sanitize_request_headers-Passes request []

sanitize_response_headers-Allowed_example :
    AllowedCookies (header_of (codes "set-cookie") response) (
      header_of
        (codes "set-cookie")
        (sanitize_response_headers never response (codes "http://w") (some (codes "https://p"))))
sanitize_response_headers-Allowed_example =
    sanitize_response_headers-Allowed never response (codes "http://w") (some (codes "https://p"))

-- Only `accept` passes.
only_accept :
    sanitize_request_headers request [] ≡ (codes "accept", some (single (codes "text/html"))) ∷ []
unfolding sanitize_request_headers
only_accept = refl

own_cookies :
    strip_platform_cookies (some (codes "a=1; platform-session=x; b=2")) ≡ some (codes "a=1; b=2")
unfolding strip_platform_cookies
own_cookies = refl
