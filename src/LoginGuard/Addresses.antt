-- ===== src/LoginGuard/Addresses.antt =====
-- The client address cannot be forged past a trusted proxy.
use mathlib.Core.List.{reverse-append, reverse-cons, reverse}
use pi_container.Prelude.Texts.{trim}
use pi_container.Egress.Text.{Text, split_text}
use pi_container.LoginGuard.{
  resolve_hops, resolve_client_address, ℕ, Bool, List, ◌++◌, not, ◌∷◌, [], map, some,
}
use pi_container.Prelude.{
  ◌≡◌, ◌||◌, any, Bool-cases, true, ◌==◌, arith, inl, inr, [], refl, ap, if◌then◌else◌, ◌∙◌,
}

any-append : (p : Text → Bool) (xs ys : List Text) → any p (xs ++ ys) ≡ any p xs || any p ys
any-append p [] ys = refl
any-append p (x ∷ xs) ys = ground (arith, any-append p xs ys)

any-reverse : (p : Text → Bool) (xs : List Text) → any p (reverse xs) ≡ any p xs
any-reverse p [] = refl
any-reverse p (x ∷ xs) =
    let turned = reverse-cons x xs in
    let split = any-append p (reverse xs) (x ∷ []) in
    let rest = any-reverse p xs in rw turned (ground (arith, split, rest))

-- A split is not empty, so a unit goes to its first part.
split_text-cons :
    (separator : ℕ) (text : Text)
    → (part : Text) × (parts : List Text) × (split_text separator text ≡ part ∷ parts)
unfolding split_text
split_text-cons separator [] = ([], [], refl)
split_text-cons separator (c ∷ cs) =
    let (part, parts, e) = split_text-cons separator cs in
    elim (Bool-cases (c == separator)) [
      | inl k ↦ ([], split_text separator cs, (rw k refl))
      | inr k ↦ (c ∷ part, parts, (rw (k, e) refl))
    ]

split_text-append :
    (separator : ℕ) (a b : Text)
    → split_text separator (a ++ separator ∷ b) ≡ split_text separator a ++ split_text separator b
unfolding split_text
split_text-append separator [] b =
    let same : separator == separator ≡ true = ground arith in rw same refl
split_text-append separator (c ∷ cs) b =
    let (part, parts, e) = split_text-cons separator cs in
    let rest = split_text-append separator cs b in
    elim (Bool-cases (c == separator)) [ inl k ↦ rw (k, rest) refl | inr k ↦ rw (k, rest, e) refl ]

module _ (is_ip : Text → Bool) (normalize_address : Text → Text) (is_trusted : Text → Bool) where
  -- A hop at which the loop ends.
  abbrev pub stops : Text → Bool
  stops hop = not (is_ip (normalize_address hop)) || not (is_trusted (normalize_address hop))

  resolve_hops-append :
      (client : Text) (hops forged : List Text)
      → any stops hops ≡ true
      → resolve_hops is_ip normalize_address is_trusted client (hops ++ forged)
        ≡ resolve_hops is_ip normalize_address is_trusted client hops
  unfolding resolve_hops
  resolve_hops-append client [] forged h = absurd (ground (arith, h))
  resolve_hops-append client (hop ∷ hops) forged h =
      elim (Bool-cases (is_ip (normalize_address hop))) [
        | inr e ↦ rw e refl
        | inl e ↦ elim (Bool-cases (is_trusted (normalize_address hop))) [
          | inr f ↦ rw (e, f) refl
          | inl f ↦
              let rest : any stops hops ≡ true = rw (e, f) at h in
              rw (e, f) (resolve_hops-append (normalize_address hop) hops forged rest)
        ]
      ]

  map-trim_append : (xs ys : List Text) → map trim (xs ++ ys) ≡ map trim xs ++ map trim ys
  map-trim_append [] ys = refl
  map-trim_append (x ∷ xs) ys = ap (λ rest. trim x ∷ rest) (map-trim_append xs ys)

  -- What a client puts before the hops that proxies add does not matter, if one of those hops is not a
  -- trusted proxy.
  pub resolve_client_address-append :
      (peer forged header : Text)
      → any stops (map trim (split_text b',' header)) ≡ true
      → resolve_client_address is_ip normalize_address is_trusted peer
          (some (forged ++ b',' ∷ header))
        ≡ resolve_client_address is_ip normalize_address is_trusted peer (some header)
  unfolding resolve_client_address
  resolve_client_address-append peer forged header h =
      let parts = split_text-append b',' forged header in
      let hops = map-trim_append (split_text b',' forged) (split_text b',' header) in
      let turned =
        reverse-append (map trim (split_text b',' forged)) (map trim (split_text b',' header)) in
      rw (parts, hops, turned)
        (ap
          (λ rest.
            if not (is_trusted (normalize_address peer)) then normalize_address peer else rest)
          (resolve_hops-append (normalize_address peer)
            (reverse (map trim (split_text b',' header)))
            (reverse (map trim (split_text b',' forged)))
            (any-reverse stops (map trim (split_text b',' header)) ∙ h)))
