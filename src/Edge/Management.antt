-- ===== src/Edge/Management.antt =====
-- Requests for the console and its API reach the control plane, whatever routes are published on its
-- host.
pub mod Reaches
pub mod Stored
pub mod Kept
pub mod Served
pub mod Reachable
use mathlib.Core.List.{append-nil, append_assoc}
use portloom.Api.Config.{Config}
use portloom.Api.Routes.{
  reserved_management_prefixes, reserves, route_uses_reserved_domain, shadows,
}
use portloom.Domain.Host.{normalize_host}
use portloom.Domain.PathPrefix.Laws.{IsPathPrefix, normalize_path_prefix_of_IsPathPrefix}
use portloom.Domain.Route.{Route, is_web, matches_path}
use portloom.Prelude.{
  Bool, Bool-cases, List, Text, [], any, arith, codes, false, inl, inr, refl, some, subst, sym,
  text_eq_iff, true, ℕ, ◌++◌, ◌==◌, ◌||◌, ◌∙◌, ◌∷◌, ◌≡◌, ◌≢◌,
}
use portloom.Strings.{contains, has_prefix, split}
use portloom.Strings.Laws.{has_prefix-append, has_prefix_sound}

-- What the API and the store let be a route: its domain and its prefix are normalised, and it is
-- none that routeUsesReservedDomain refuses.
pub record IsUnreserved (unicode_lower : ℕ → ℕ) (config : Config) (r : Route) : Type 0 where
  pub domain : normalize_host unicode_lower r.domain ≡ r.domain
  pub prefix : IsPathPrefix r.path_prefix
  pub free : route_uses_reserved_domain unicode_lower config r ≡ false

-- Where two prefixes end before a slash in the same text, the first holds the second, if that one
-- has no slash.
prefix-shadows :
    (p q s : Text)
    → contains b'/' q ≡ false
    → has_prefix (p ++ codes "/") s ≡ true
    → has_prefix (q ++ codes "/") s ≡ true
    → shadows p q ≡ true
unfolding has_prefix contains shadows ◌==◌
prefix-shadows [] [] s plain hp hq = refl
prefix-shadows [] (d ∷ q) [] plain hp hq = cc
prefix-shadows [] (d ∷ q) (c ∷ s) plain hp hq = ground arith
prefix-shadows (c ∷ p) [] [] plain hp hq = cc
prefix-shadows (c ∷ p) [] (e ∷ s) plain hp hq = ground arith
prefix-shadows (c ∷ p) (d ∷ q) [] plain hp hq = cc
prefix-shadows (c ∷ p) (d ∷ q) (e ∷ s) plain hp hq = ground (arith, prefix-shadows p q s)

-- Either way of matchesPath is a prefix with a slash of the path with a slash.
prefix_of_match :
    (p path : Text)
    → (path == p || has_prefix (p ++ codes "/") path) ≡ true
    → has_prefix (p ++ codes "/") (path ++ codes "/") ≡ true
prefix_of_match p path h = elim (Bool-cases (path == p)) [
  | inl e ↦
      let same : path ≡ p = (text_eq_iff path p).0 e in
      subst (λ q. has_prefix (p ++ codes "/") (q ++ codes "/") ≡ true) (sym same)
        (subst (λ q. has_prefix (p ++ codes "/") q ≡ true) (append-nil (p ++ codes "/"))
          (has_prefix-append (p ++ codes "/") []))
  | inr e ↦
      let (rest, same) = has_prefix_sound (p ++ codes "/") path (ground arith) in
      subst (λ q. has_prefix (p ++ codes "/") (q ++ codes "/") ≡ true) (sym same)
        (subst (λ q. has_prefix (p ++ codes "/") q ≡ true)
          (sym (append_assoc (p ++ codes "/") rest (codes "/")))
          (has_prefix-append (p ++ codes "/") (rest ++ codes "/")))
]

shadows_of_matches :
    (p q path : Text)
    → IsPathPrefix p
    → p ≢ []
    → contains b'/' q ≡ false
    → (path == p || has_prefix (p ++ codes "/") path) ≡ true
    → (path == b'/' ∷ q || has_prefix (b'/' ∷ q ++ codes "/") path) ≡ true
    → shadows p (b'/' ∷ q) ≡ true
unfolding shadows has_prefix ◌==◌
shadows_of_matches [] q path h named plain hp hq = absurd (named refl)
shadows_of_matches (c ∷ p) q [] (slash, h, chars) named plain hp hq = cc
shadows_of_matches (c ∷ p) q (d ∷ path) (slash, h, chars) named plain hp hq =
    let hp' = prefix_of_match (c ∷ p) (d ∷ path) hp in
    let hq' = prefix_of_match (b'/' ∷ q) (d ∷ path) hq in
    let e : shadows p q ≡ true =
      prefix-shadows p q (path ++ codes "/") plain (ground arith) (ground arith) in
    ground arith

any_of_listed :
    (f : Text → Bool) (v : Text) (l : List Text)
    → any (λ x. x == v) l ≡ true
    → f v ≡ true
    → any f l ≡ true
any_of_listed f v [] listed h = cc
any_of_listed f v (x ∷ l) listed h = elim (Bool-cases (x == v)) [
  | inl e ↦
      let here : f x ≡ true = subst (λ y. f y ≡ true) (sym ((text_eq_iff x v).0 e)) h in
      ground arith
  | inr e ↦ ground (arith, any_of_listed f v l)
]

-- The prefix of a free route on the management host.
reserves-free :
    (unicode_lower : ℕ → ℕ) (config : Config) (r : Route)
    → IsUnreserved unicode_lower config r
    → config.public_host ≢ []
    → is_web r.protocol ≡ true
    → r.domain ≡ normalize_host unicode_lower config.public_host
    → reserves r (some r.path_prefix) ≡ false
unfolding route_uses_reserved_domain
reserves-free unicode_lower config r free hosted web same =
    let e = normalize_path_prefix_of_IsPathPrefix r.path_prefix free.prefix in
    let named : (config.public_host == []) ≡ false =
      ground (arith, text_eq_iff config.public_host []) in
    let there =
      (text_eq_iff (normalize_host unicode_lower r.domain)
          (normalize_host unicode_lower config.public_host)).1
        (free.domain ∙ same) in
    subst (λ o. reserves r o ≡ false) e (ground (arith, free.free))

root_unmatched :
    (p : Text)
    → IsPathPrefix p
    → p ≢ []
    → (codes "/" == p || has_prefix (p ++ codes "/") (codes "/")) ≡ false
unfolding has_prefix ◌==◌ split
root_unmatched [] h named = absurd (named refl)
root_unmatched (c ∷ []) (slash, (segment, rest), chars) named = absurd (segment.0 refl)
root_unmatched (c ∷ d ∷ s) h named = ground arith

-- A name that makes a reserved prefix.
abbrev IsReserved : Text → Type 0
IsReserved q =
    (any (λ p. p == b'/' ∷ q) reserved_management_prefixes ≡ true) × (contains b'/' q ≡ false)

all-IsReserved :
    IsReserved (codes "api") × IsReserved (codes "assets") × IsReserved (codes "healthz")
unfolding ◌==◌ contains
all-IsReserved = ((refl, refl), (refl, refl), (refl, refl))

prefix-reserves : (r : Route) → reserves r (some r.path_prefix) ≡ false → r.path_prefix ≢ []
unfolding reserves
prefix-reserves r unreserved e = ground (arith, unreserved, (text_eq_iff r.path_prefix []).1 e)

module _ (unicode_lower : ℕ → ℕ) (config : Config) where
  -- A route of the management host that is free claims no path of the console's API.
  free-ne-matches :
      (r : Route) (q path : Text)
      → IsUnreserved unicode_lower config r
      → config.public_host ≢ []
      → is_web r.protocol ≡ true
      → r.domain ≡ normalize_host unicode_lower config.public_host
      → any (λ p. p == b'/' ∷ q) reserved_management_prefixes ≡ true
      → contains b'/' q ≡ false
      → (path == b'/' ∷ q || has_prefix (b'/' ∷ q ++ codes "/") path) ≡ true
      → matches_path r path ≡ false
  unfolding matches_path reserves
  free-ne-matches r q path free hosted web same reserved plain reaches =
      elim (Bool-cases (matches_path r path)) [
        | inr e ↦ e
        | inl e ↦
            let unreserved = reserves-free unicode_lower config r free hosted web same in
            let named : r.path_prefix ≢ [] = prefix-reserves r unreserved in
            let shadowed =
              shadows_of_matches r.path_prefix q path free.prefix named plain (ground arith)
                reaches in
            let hit =
              any_of_listed (shadows r.path_prefix) (b'/' ∷ q) reserved_management_prefixes reserved
                shadowed in
            absurd (ground (arith, unreserved, hit))
      ]

  -- The root and the paths below the reserved prefixes.
  abbrev pub is_management_path : Text → Bool
  is_management_path path =
      path == codes "/"
      || any (λ p. path == p || has_prefix (p ++ codes "/") path) reserved_management_prefixes

  free-ne-root :
      (r : Route)
      → IsPathPrefix r.path_prefix
      → r.path_prefix ≢ []
      → matches_path r (codes "/") ≡ false
  unfolding matches_path
  free-ne-root r h named =
      ground (arith, root_unmatched r.path_prefix h named, text_eq_iff r.path_prefix [])

  pub free-ne-management :
      (r : Route) (path : Text)
      → IsUnreserved unicode_lower config r
      → config.public_host ≢ []
      → is_web r.protocol ≡ true
      → r.domain ≡ normalize_host unicode_lower config.public_host
      → is_management_path path ≡ true
      → matches_path r path ≡ false
  free-ne-management r path free hosted web same managed =
      let (api, assets, healthz) = all-IsReserved in
      let below : (q : Text)
          → IsReserved q
          → (path == b'/' ∷ q || has_prefix (b'/' ∷ q ++ codes "/") path) ≡ true
          → matches_path r path ≡ false =
        λ q (reserved, plain) reaches.
          free-ne-matches r q path free hosted web same reserved plain reaches in
      let unreserved = reserves-free unicode_lower config r free hosted web same in
      let root : path ≡ codes "/" → matches_path r path ≡ false = λ e.
        subst (λ q. matches_path r q ≡ false) (sym e)
          (free-ne-root r free.prefix (prefix-reserves r unreserved)) in
      ground (
        arith,
        managed,
        root,
        text_eq_iff path (codes "/"),
        below (codes "api") api,
        below (codes "assets") assets,
        below (codes "healthz") healthz,
      )
