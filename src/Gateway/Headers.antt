-- ===== src/Gateway/Headers.antt =====
-- Which headers and cookies pass.
use pi_container.Prelude.Texts.{same_text, same_text_sound, same_text_refl}
use pi_container.Egress.Text.{Text}
use pi_container.Gateway.{
  Headers, HeaderValue, header_of, put, put_defined, put_all, is_kept, sanitize_request_headers,
  Option, some, select, is_null, is_blocked, remove, with_location, set_cookies, with_set_cookie,
  relocated, Bool, not, sanitize_response_headers, among, LocationUrl, is_platform_set_cookie, List,
  hop_by_hop_headers, codes, to_lower, several, connection_header_tokens, next_internal_headers,
  is_internal,
}
use pi_container.Prelude.{
  [], ◌∷◌, none, some, false, true, Memᴰ, ◌≡◌, All, ◌⊎◌, inl, All-of_mem, mem_of_select, inr,
  Bool-cases, subst, refl, ap, if◌then◌else◌, sym, ◌&&◌, ◌||◌, arith,
}

abbrev Entry : Type 0
Entry = Text × Option HeaderValue

-- What holds of the entries of a header object whose names differ, and of an entry that is set, holds of
-- the entries after it is set.
module _ (P : Entry → Type 0) where
  put-All :
      (name : Text) (value : HeaderValue) (headers : Headers)
      → P (name, some value)
      → All P headers
      → All P (put name value headers)
  unfolding put
  put-All name value [] h k = (h, tt)
  put-All name value ((key, old) ∷ headers) h k = elim (Bool-cases (same_text name key)) [
    | inl e ↦ rw e (subst (λ x. P (x, some value)) (same_text_sound name key e) h, k.1)
    | inr e ↦ rw e (k.0, put-All name value headers h k.1)
  ]

  put_all-All :
      (replacements headers : Headers)
      → ((name : Text) (value : HeaderValue)
          → Memᴰ (name, some value) replacements
          → P (name, some value))
      → All P headers
      → All P (put_all replacements headers)
  unfolding put_all put_defined
  put_all-All [] headers h k = k
  put_all-All ((name, none) ∷ replacements) headers h k =
      put_all-All replacements headers (λ n v m. h n v (Memᴰ.tail m)) k
  put_all-All ((name, some value) ∷ replacements) headers h k =
      put_all-All replacements (put name value headers) (λ n v m. h n v (Memᴰ.tail m))
        (put-All name value headers (h name value (Memᴰ.head refl)) k)

-- A replacement, or a header of the request with a value, which is not hop by hop, not named by the
-- Connection header and not internal to Next.js.
abbrev pub Passes : Headers → Headers → Entry → Type 0
Passes headers replacements entry =
    Memᴰ entry replacements
    ⊎ (Memᴰ entry headers
        × ((is_null entry.1 ≡ false)
            × (among hop_by_hop_headers (to_lower entry.0) ≡ false)
            × (among (connection_header_tokens headers) (to_lower entry.0) ≡ false)
            × (among next_internal_headers (to_lower entry.0) ≡ false)
            × (is_internal (to_lower entry.0) ≡ false)))

none_true :
    (internal null token hop next replaced : Bool)
    → (not internal && not null && not (token || hop || next || replaced)) ≡ true
    → (null ≡ false) × (hop ≡ false) × (token ≡ false) × (next ≡ false) × (internal ≡ false)
none_true internal null token hop next replaced h =
    (ground (arith, h), ground (arith, h), ground (arith, h), ground (arith, h), ground (arith, h))

kept-Passes :
    (headers replacements : Headers) (entry : Entry)
    → Memᴰ entry headers
    → is_kept headers replacements entry ≡ true
    → Passes headers replacements entry
unfolding is_blocked
kept-Passes headers replacements (name, value) m kept = inr (m, none_true _ _ _ _ _ _ kept)

-- Each header that the upstream gets is a replacement, or a header of the request that has a value and
-- is not hop by hop, not named by the Connection header, and not internal to Next.js.
pub sanitize_request_headers-Passes :
    (headers replacements : Headers)
    → All (Passes headers replacements) (sanitize_request_headers headers replacements)
unfolding sanitize_request_headers
sanitize_request_headers-Passes headers replacements =
    put_all-All (Passes headers replacements) replacements
      (select (is_kept headers replacements) headers) (λ name value m. inl m)
      (All-of_mem (Passes headers replacements) _ (λ entry m.
        let (here, kept) = mem_of_select (is_kept headers replacements) entry headers m in
        kept-Passes headers replacements entry here kept))

header_of-put :
    (name : Text) (value : HeaderValue) (headers : Headers)
    → header_of name (put name value headers) ≡ some value
unfolding header_of put
header_of-put name value [] = rw (same_text_refl name) refl
header_of-put name value ((key, old) ∷ headers) = elim (Bool-cases (same_text name key)) [
  | inl e ↦ rw (e, e) refl
  | inr e ↦ rw (e, e) (header_of-put name value headers)
]

header_of-put_other :
    (name other : Text) (value : HeaderValue) (headers : Headers)
    → same_text name other ≡ false
    → header_of name (put other value headers) ≡ header_of name headers
unfolding header_of put
header_of-put_other name other value [] h = rw h refl
header_of-put_other name other value ((key, old) ∷ headers) h =
    elim (Bool-cases (same_text other key)) [
      | inl e ↦
          let k : same_text name key ≡ false =
            subst (λ x. same_text name x ≡ false) (same_text_sound other key e) h in
          rw (e, k) refl
      | inr e ↦ rw e (
          ap (λ rest. if same_text name key then old else rest)
            (header_of-put_other name other value headers h))
    ]

header_of-remove_other :
    (name other : Text) (headers : Headers)
    → same_text name other ≡ false
    → header_of name (remove other headers) ≡ header_of name headers
unfolding header_of remove
header_of-remove_other name other [] h = refl
header_of-remove_other name other ((key, old) ∷ headers) h =
    elim (Bool-cases (same_text other key)) [
      | inl e ↦
          let k : same_text name key ≡ false =
            subst (λ x. same_text name x ≡ false) (same_text_sound other key e) h in
          rw (e, k) (header_of-remove_other name other headers h)
      | inr e ↦ rw e (
          ap (λ rest. if same_text name key then old else rest)
            (header_of-remove_other name other headers h))
    ]

header_of-remove : (name : Text) (headers : Headers) → header_of name (remove name headers) ≡ none
unfolding header_of remove
header_of-remove name [] = refl
header_of-remove name ((key, old) ∷ headers) = elim (Bool-cases (same_text name key)) [
  | inl e ↦ rw e (header_of-remove name headers)
  | inr e ↦ rw (e, e) (header_of-remove name headers)
]

-- A redirection does not touch another header.
header_of-with_location :
    (name : Text) (public_origin : Option Text) (target : Text) (url : Option LocationUrl)
    (headers : Headers)
    → same_text name (codes "location") ≡ false
    → header_of name (with_location public_origin target url headers) ≡ header_of name headers
unfolding with_location
header_of-with_location name none target url headers h = refl
header_of-with_location name (some origin) target none headers h =
    header_of-remove_other name (codes "location") headers h
header_of-with_location name (some origin) target (some url) headers h =
    elim (Bool-cases (same_text url.origin target)) [
      | inl e ↦ rw e (header_of-put_other name (codes "location") _ headers h)
      | inr e ↦ rw e refl
    ]

-- A cookie of the upstream that does not have a name of the platform.
abbrev pub Allowed : Option HeaderValue → Text → Type 0
Allowed value cookie = Memᴰ cookie (set_cookies value) × (is_platform_set_cookie cookie ≡ false)

abbrev pub AllowedCookies : Option HeaderValue → Option HeaderValue → Type 0
AllowedCookies value result = All (Allowed value) (set_cookies result)

with_set_cookie-Allowed :
    (value : Option HeaderValue) (cookies : List Text) (headers : Headers)
    → All (Allowed value) cookies
    → AllowedCookies value (header_of (codes "set-cookie") (with_set_cookie cookies headers))
unfolding with_set_cookie
with_set_cookie-Allowed value [] headers h = rw (header_of-remove (codes "set-cookie") headers) tt
with_set_cookie-Allowed value (cookie ∷ cookies) headers h =
    rw (header_of-put (codes "set-cookie") (several (cookie ∷ cookies)) headers) h

relocated-same :
    (read_url : Text → Option LocationUrl) (value : Option HeaderValue) (origin : Option Text)
    (target : Text) (headers : Headers)
    → header_of (codes "set-cookie") (relocated read_url value origin target headers)
      ≡ header_of (codes "set-cookie") headers
unfolding relocated
relocated-same read_url none origin target headers = refl
relocated-same read_url (some value) origin target headers =
    header_of-with_location (codes "set-cookie") origin target _ headers refl

false_of_not : (b : Bool) → not b ≡ true → b ≡ false
false_of_not true h = sym h
false_of_not false h = refl

allowed_of_mem :
    (value : Option HeaderValue)
    → All
        (Allowed value)
        (select (λ cookie. not (is_platform_set_cookie cookie)) (set_cookies value))
allowed_of_mem value = All-of_mem (Allowed value) _ (λ cookie m.
    let (here, kept) =
      mem_of_select (λ (text : Text). not (is_platform_set_cookie text)) cookie (set_cookies value)
        m in
    (here, false_of_not _ kept))

-- However a URL is read, the cookies that a response of an upstream sets are cookies that the upstream
-- sets, and none has a name of the platform's session cookies.
pub sanitize_response_headers-Allowed :
    (read_url : Text → Option LocationUrl) (headers : Headers) (target : Text)
    (public_origin : Option Text)
    → AllowedCookies (header_of (codes "set-cookie") headers) (
        header_of
          (codes "set-cookie")
          (sanitize_response_headers read_url headers target public_origin))
unfolding sanitize_response_headers
sanitize_response_headers-Allowed read_url headers target public_origin =
    rw (relocated-same read_url (header_of (codes "location") headers) public_origin target _) (
      with_set_cookie-Allowed (header_of (codes "set-cookie") headers) _ _
        (allowed_of_mem (header_of (codes "set-cookie") headers)))
