-- ===== src/Maps.antt =====
-- Go maps as association lists: a key's value is that of its first entry.
pub mod Laws
use portloom.Prelude.{Bool, List, Option, [], false, if◌then◌else◌, none, some, ◌||◌, ◌∷◌}

module _ {ℓ κ} {K : Type ℓ} {A : Type κ} (same : K → K → Bool) where
  abbrev pub map_get : K → List (K × A) → Option A
  map_get k [] = none
  map_get k (e ∷ m) = if same k e.0 then some e.1 else map_get k m

  abbrev pub map_remove : K → List (K × A) → List (K × A)
  map_remove k [] = []
  map_remove k (e ∷ m) = let rest = map_remove k m in if same k e.0 then rest else e ∷ rest

  abbrev pub map_put : K → A → List (K × A) → List (K × A)
  map_put k a m = (k, a) ∷ map_remove k m

  abbrev pub map_has : K → List (K × A) → Bool
  map_has k [] = false
  map_has k (e ∷ m) = same k e.0 || map_has k m

abbrev pub keys {ℓ κ} : {K : Type ℓ} {A : Type κ} → List (K × A) → List K
keys [] = []
keys (e ∷ m) = e.0 ∷ keys m
