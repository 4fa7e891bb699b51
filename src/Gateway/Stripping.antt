-- ===== src/Gateway/Stripping.antt =====
-- The path that the proxy asks for behind the tunnel.
use mathlib.Core.List.{append-nil}
use portloom.Domain.Route.{Route, trimmed}
use portloom.Gateway.{stripped_path}
use portloom.Prelude.{
  Bool-cases, Text, [], codes, drop, if◌then◌else◌, inl, inr, length, refl, subst, text_eq_iff,
  true, ◌++◌, ◌==◌, ◌∷◌, ◌≡◌, ◌≢◌,
}
use portloom.Strings.{trim_prefix}
use portloom.Strings.Laws.{has_prefix-append}

drop-append : (p rest : Text) → drop (length p) (p ++ rest) ≡ rest
drop-append [] rest = refl
drop-append (c ∷ p) rest = drop-append p rest

trim_prefix-append : (p rest : Text) → trim_prefix p (p ++ rest) ≡ rest
unfolding trim_prefix
trim_prefix-append p rest = rw (has_prefix-append p rest) (drop-append p rest)

stripped_whole :
    (r : Route) (path trimmed : Text)
    → r.strip_path ≡ true
    → r.path_prefix ≢ []
    → trim_prefix r.path_prefix path ≡ trimmed
    → stripped_path r path ≡ (if trimmed == [] then codes "/" else trimmed)
unfolding stripped_path
stripped_whole r path trimmed strip nonempty e = elim (Bool-cases (r.path_prefix == [])) [
  | inl q ↦ absurd (nonempty ((text_eq_iff r.path_prefix []).0 q))
  | inr q ↦ rw (strip, q, e)
]

-- With stripping, the prefix itself becomes the root, and a path below the prefix loses it and
-- keeps its leading slash.
stripped_path-under :
    (r : Route) (rest : Text)
    → r.strip_path ≡ true
    → r.path_prefix ≢ []
    → (stripped_path r r.path_prefix ≡ codes "/")
      × (stripped_path r (r.path_prefix ++ b'/' ∷ rest) ≡ b'/' ∷ rest)
unfolding ◌==◌
stripped_path-under r rest strip nonempty = (
  stripped_whole r r.path_prefix [] strip nonempty (
      subst (λ t. trim_prefix r.path_prefix t ≡ []) (append-nil r.path_prefix)
        (trim_prefix-append r.path_prefix [])),
  stripped_whole r (r.path_prefix ++ b'/' ∷ rest) (b'/' ∷ rest) strip nonempty
      (trim_prefix-append r.path_prefix (b'/' ∷ rest)),
)
