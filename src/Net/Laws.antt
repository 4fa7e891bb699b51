-- ===== src/Net/Laws.antt =====
-- A text without a colon has no port.
use portloom.Net.{split_bracketed, split_plain, split_host_port}
use portloom.Prelude.{
  Bool-cases, Option-cases, Text, [], arith, false, inl, inr, nat_eq, none, refl, some, subst, ℕ,
  ◌∷◌, ◌≡◌,
}
use portloom.Strings.{contains, cut_first, cut_last}

cut_first-rest :
    (c d : ℕ) (s a b : Text)
    → cut_first c s ≡ some (a, b)
    → contains d s ≡ false
    → contains d b ≡ false
unfolding cut_first contains
cut_first-rest c d [] a b e h = cc
cut_first-rest c d (x ∷ s) a b e h = elim (Bool-cases (nat_eq x c)) [
  | inl k ↦ let same : s ≡ b = ground arith in subst (λ t. contains d t ≡ false) same (ground arith)
  | inr k ↦ elim (Option-cases (cut_first c s)) [
    | inl f ↦ absurd (ground arith)
    | inr (p, f) ↦
        let same : p.1 ≡ b = ground arith in
        subst (λ t. contains d t ≡ false) same (cut_first-rest c d s p.0 p.1 f (ground arith))
  ]
]

cut_last-none : (c : ℕ) (s : Text) → contains c s ≡ false → cut_last c s ≡ none
unfolding cut_last contains
cut_last-none c [] h = refl
cut_last-none c (x ∷ s) h = ground (arith, cut_last-none c s)

pub split_host_port-none : (s : Text) → contains b':' s ≡ false → split_host_port s ≡ none
unfolding split_host_port split_bracketed split_plain contains
split_host_port-none [] h = refl
split_host_port-none (c ∷ s) h = elim (Bool-cases (nat_eq c b'[')) [
  | inr k ↦ ground (arith, cut_last-none b':' (c ∷ s) h)
  | inl k ↦ elim (Option-cases (cut_first b']' s)) [
    | inl e ↦ ground arith
    | inr ((host, []), e) ↦ ground arith
    | inr ((host, d ∷ port), e) ↦
        let rest = cut_first-rest b']' b':' s host (d ∷ port) e (ground arith) in ground arith
  ]
]
