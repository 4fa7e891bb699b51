-- ===== src/Maps/Laws.antt =====
-- What reading a Go map gives after a write or a deletion.
use portloom.Maps.{map_get, map_put, map_remove}
use portloom.Prelude.{
  Bool, Bool-cases, List, [], ap, arith, false, if◌then◌else◌, inl, inr, keep, length, none, refl,
  some, subst, sym, true, ◌+◌, ◌↔◌, ◌∙◌, ◌∷◌, ◌≡◌,
}

module _ {ℓ κ} {K : Type ℓ} {A : Type κ} (same : K → K → Bool) where
  pub map_get-map_remove : (k : K) (m : List (K × A)) → map_get same k (map_remove same k m) ≡ none
  map_get-map_remove k [] = refl
  map_get-map_remove k (e ∷ m) = elim (Bool-cases (same k e.0)) [
    | inl h ↦ rw h (map_get-map_remove k m)
    | inr h ↦ rw (h, h) (map_get-map_remove k m)
  ]

  pub map_get-map_put :
      (k : K) (a : A) (m : List (K × A))
      → same k k ≡ true
      → map_get same k (map_put same k a m) ≡ some a
  map_get-map_put k a m h = rw h refl

-- A test of keys that tells equal ones.
module _ {K A : Type 0} (same : K → K → Bool)
    (same_iff : (a b : K) → (same a b ≡ true) ↔ (a ≡ b)) where
  -- No key stands twice.
  abbrev pub IsMap : List (K × A) → Type 0
  IsMap [] = Unit
  IsMap (e ∷ m) = (map_get same e.0 m ≡ none) × IsMap m

  pub map_get-map_remove_other :
      (k j : K) (m : List (K × A))
      → same k j ≡ false
      → map_get same k (map_remove same j m) ≡ map_get same k m
  map_get-map_remove_other k j [] h = refl
  map_get-map_remove_other k j (e ∷ m) h = elim (Bool-cases (same j e.0)) [
    | inr d ↦ ground (arith, map_get-map_remove_other k j m h)
    | inl d ↦
        let apart : same k e.0 ≡ false = subst (λ x. same k x ≡ false) ((same_iff j e.0).0 d) h in
        ground (arith, map_get-map_remove_other k j m h)
  ]

  map_get-map_remove-none :
      (k j : K) (m : List (K × A))
      → map_get same k m ≡ none
      → map_get same k (map_remove same j m) ≡ none
  map_get-map_remove-none k j m h = elim (Bool-cases (same k j)) [
    | inl e ↦
        subst (λ x. map_get same k (map_remove same x m) ≡ none) ((same_iff k j).0 e)
          (map_get-map_remove same k m)
    | inr e ↦ map_get-map_remove_other k j m e ∙ h
  ]

  pub map_remove-IsMap : (j : K) (m : List (K × A)) → IsMap m → IsMap (map_remove same j m)
  map_remove-IsMap j [] h = tt
  map_remove-IsMap j (e ∷ m) (fresh, h) = elim (Bool-cases (same j e.0)) [
    | inl d ↦ rw d (map_remove-IsMap j m h)
    | inr d ↦ rw d (map_get-map_remove-none e.0 j m fresh, map_remove-IsMap j m h)
  ]

  pub map_put-IsMap : (j : K) (a : A) (m : List (K × A)) → IsMap m → IsMap (map_put same j a m)
  map_put-IsMap j a m h = (map_get-map_remove same j m, map_remove-IsMap j m h)

  pub map_get-keep :
      (p : K × A → Bool) (k : K) (m : List (K × A))
      → IsMap m
      → map_get same k (keep p m)
        ≡ (elim (map_get same k m) [ none ↦ none | some a ↦ if p (k, a) then some a else none ])
  map_get-keep p k [] h = refl
  map_get-keep p k (e ∷ m) (fresh, h) = elim (Bool-cases (same k e.0)) [
    | inr d ↦ elim (Bool-cases (p e)) [
      | inl q ↦ rw (d, q, d) (map_get-keep p k m h)
      | inr q ↦ rw (d, q) (map_get-keep p k m h)
    ]
    | inl d ↦
        let at : k ≡ e.0 = (same_iff k e.0).0 d in
        let absent : map_get same k m ≡ none =
          subst (λ x. map_get same x m ≡ none) (sym at) fresh in
        let rest : map_get same k (keep p m) ≡ none = map_get-keep p k m h ∙ rw absent refl in
        let here : p (k, e.1) ≡ p e = ap (λ x. p (x, e.1)) at in
        elim (Bool-cases (p e)) [
          | inl q ↦ rw (d, q, d, here ∙ q) refl
          | inr q ↦ rw (d, q, here ∙ q) rest
        ]
  ]

  pub map_remove-absent :
      (k : K) (m : List (K × A)) → map_get same k m ≡ none → map_remove same k m ≡ m
  map_remove-absent k [] h = refl
  map_remove-absent k (e ∷ m) h = elim (Bool-cases (same k e.0)) [
    | inl d ↦ absurd (ground arith)
    | inr d ↦ rw d (ap (e ∷◌) (map_remove-absent k m (ground arith)))
  ]

  pub length-map_remove :
      (k : K) (m : List (K × A)) (a : A)
      → IsMap m
      → map_get same k m ≡ some a
      → length (map_remove same k m) + 1 ≡ length m
  length-map_remove k [] a h found = cc
  length-map_remove k (e ∷ m) a (fresh, h) found = elim (Bool-cases (same k e.0)) [
    | inl d ↦
        let absent : map_get same k m ≡ none =
          subst (λ x. map_get same x m ≡ none) (sym ((same_iff k e.0).0 d)) fresh in
        rw d (rw (map_remove-absent k m absent) (omega arith))
    | inr d ↦ rw d (let shorter = length-map_remove k m a h (ground arith) in omega arith)
  ]
