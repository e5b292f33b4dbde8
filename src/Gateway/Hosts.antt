-- ===== src/Gateway/Hosts.antt =====
-- packages/gateway/src/index.ts: the host name of a Workspace, and the Workspace of a host name. What the
-- schema of Workspace IDs accepts is a parameter.
use mathlib.Core.Option.{some-injective}
use pi_container.Prelude.Texts.{
  same_text, same_text_refl, to_lower, to_lower-append, ends_with, skip_first-append,
  first_of-append, same_text_sound,
}
use pi_container.Egress.Text.{Text}
use pi_container.Prelude.{
  true, false, first_of, if◌then◌else◌, ◌∷◌, Bool, length, Option, ◌≡◌, ◌++◌, ◌==◌, some, ◌-◌, none,
  ◌&&◌, not, length-append, ◌∙◌, arith, ap, leb, refl, Bool-cases, inl, inr, subst,
}

pub record WorkspaceBaseUrl : Type 0 where
  pub protocol : Text
  pub hostname : Text
  pub port : Text

abbrev pub authority : WorkspaceBaseUrl → Text
authority base = if length base.port == 0 then base.hostname else base.hostname ++ b':' ∷ base.port

-- The text after the ID: a dot and the authority.
abbrev pub host_suffix : WorkspaceBaseUrl → Text
host_suffix base = b'.' ∷ authority base

and_right : (a b : Bool) → (a && b) ≡ true → b ≡ true
and_right true b h = h
and_right false b h = absurd (ground (arith, h))

module _ (is_uuid : Text → Bool) (base : WorkspaceBaseUrl) where
  -- `none` if the ID is refused.
  unfoldable pub workspace_host : Text → Option Text
  workspace_host id = if is_uuid id then some (id ++ host_suffix base) else none

  same_host : Option Text → Text → Bool
  same_host none header = false
  same_host (some host) header = same_text host header

  id_of_host : Text → Option Text
  unfolding same_host workspace_host
  id_of_host header =
      let candidate = first_of (length header - length (host_suffix base)) header in
      if is_uuid candidate && same_host (workspace_host candidate) header
      then some candidate
      else none

  unfoldable pub workspace_id_from_host : Option Text → Option Text
  unfolding id_of_host
  workspace_id_from_host none = none
  workspace_id_from_host (some header) =
      if not (same_text header (to_lower header))
      then none
      else if not (ends_with (host_suffix base) header)
      then none
      else id_of_host header

  read_back : (id : Text) → is_uuid id ≡ true → id_of_host (id ++ host_suffix base) ≡ some id
  unfolding id_of_host same_host workspace_host
  read_back id h =
      let sizes = length-append id (host_suffix base) in
      let size : length (id ++ host_suffix base) - length (host_suffix base) ≡ length id =
        omega (arith, sizes) in
      let start = first_of-append id (host_suffix base) in
      rw (size, start, h, same_text_refl (id ++ host_suffix base)) refl

  read_ends : (id : Text) → ends_with (host_suffix base) (id ++ host_suffix base) ≡ true
  read_ends id =
      let sizes = length-append id (host_suffix base) in
      let size : length (id ++ host_suffix base) - length (host_suffix base) ≡ length id =
        omega (arith, sizes) in
      let rest = skip_first-append id (host_suffix base) in
      let fits : leb (length (host_suffix base)) (length (id ++ host_suffix base)) ≡ true =
        ground (arith, sizes) in
      rw (fits, size, rest, same_text_refl (host_suffix base)) refl

  -- A Workspace ID without capitals, with a base URL without capitals, is read back from its host name.
  pub workspace_id_from_host-workspace_host :
      (id : Text)
      → is_uuid id ≡ true
      → to_lower id ≡ id
      → to_lower (host_suffix base) ≡ host_suffix base
      → workspace_id_from_host (workspace_host id) ≡ some id
  unfolding workspace_id_from_host workspace_host
  workspace_id_from_host-workspace_host id h lower base_lower =
      let same : to_lower (id ++ host_suffix base) ≡ id ++ host_suffix base =
        to_lower-append id (host_suffix base)
        ∙ ap (λ x. x ++ to_lower (host_suffix base)) lower
        ∙ ap (λ x. id ++ x) base_lower in
      rw (h, same, same_text_refl (id ++ host_suffix base), read_ends id, workspace_id_from_host)
        (read_back id h)

  same_host_sound :
      (host : Option Text) (header : Text) → same_host host header ≡ true → host ≡ some header
  unfolding same_host
  same_host_sound none header h = absurd (ground (arith, h))
  same_host_sound (some host) header h = ap (λ x. some x) (same_text_sound host header h)

  read_only :
      (candidate header id : Text)
      → (if is_uuid candidate && same_host (workspace_host candidate) header
          then some candidate
          else none)
        ≡ some id
      → workspace_host id ≡ some header
  read_only candidate header id h =
      elim (Bool-cases (is_uuid candidate && same_host (workspace_host candidate) header)) [
        | inl e ↦
            let q : candidate ≡ id = some-injective candidate id (rw e at h) in
            subst (λ x. workspace_host x ≡ some header) q
              (same_host_sound (workspace_host candidate) header (and_right _ _ e))
        | inr e ↦ absurd (let k : none ≡ some id = rw e at h in cc)
      ]

  -- A host header that gives a Workspace ID is the host name of that Workspace: no two headers reach the
  -- same Workspace, and an ID that the schema refuses is never given.
  workspace_host-id_from_host :
      (header id : Text)
      → workspace_id_from_host (some header) ≡ some id
      → workspace_host id ≡ some header
  unfolding workspace_id_from_host id_of_host
  workspace_host-id_from_host header id h = elim (Bool-cases (same_text header (to_lower header))) [
    | inr e ↦ absurd (let k : none ≡ some id = rw e at h in cc)
    | inl e ↦ elim (Bool-cases (ends_with (host_suffix base) header)) [
      | inr f ↦ absurd (let k : none ≡ some id = rw (e, f) at h in cc)
      | inl f ↦
          read_only (first_of (length header - length (host_suffix base)) header) header id
            (rw (e, f) at h)
    ]
  ]
