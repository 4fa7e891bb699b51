-- ===== src/Strings/Laws.antt =====
-- Laws of trimming, splitting and lower case that the normalisation functions rest on.
use portloom.Prelude.{
  All, Bool, Bool-cases, List, Text, [], all, and-eq-true, any, ap, arith, false, inl, inr, nat_eq,
  nat_eq_iff, refl, subst, sym, true, ℕ, ◌++◌, ◌<◌, ◌∷◌, ◌≡◌, ◌≤◌,
}
use portloom.Strings.{
  cons_head, cons_trimmed, contains, has_prefix, is_space, len, lower_rune, rune_len, split,
  to_lower, trim_left, trim_right, trim_space, trim_suffix,
}

abbrev pub IsPlain : ℕ → Type 0
IsPlain c = is_space c ≡ false

-- Trimming keeps what holds of every character.
module _ (P : ℕ → Type 0) where
  All-trim_left : (s : Text) → All P s → All P (trim_left s)
  unfolding trim_left
  All-trim_left [] h = tt
  All-trim_left (c ∷ s) h = ground (arith, All-trim_left s h.1)

  All-cons_trimmed : (c : ℕ) (s : Text) → P c → All P s → All P (cons_trimmed c s)
  All-cons_trimmed c [] p h = ground arith
  All-cons_trimmed c (d ∷ s) p h = (p, h)

  All-trim_right : (s : Text) → All P s → All P (trim_right s)
  unfolding trim_right
  All-trim_right [] h = tt
  All-trim_right (c ∷ s) (p, h) = All-cons_trimmed c (trim_right s) p (All-trim_right s h)

  pub All-trim_space : (s : Text) → All P s → All P (trim_space s)
  unfolding trim_space
  All-trim_space s h = All-trim_right (trim_left s) (All-trim_left s h)

  pub All-trim_suffix : (c : ℕ) (s : Text) → All P s → All P (trim_suffix c s)
  unfolding trim_suffix
  All-trim_suffix c [] h = tt
  All-trim_suffix c (d ∷ []) h = ground arith
  All-trim_suffix c (d ∷ e ∷ s) (p, h) = (p, All-trim_suffix c (e ∷ s) h)

  All-cons_head : (d : ℕ) (ws : List Text) → P d → All (All P) ws → All (All P) (cons_head d ws)
  All-cons_head d [] p h = ((p, tt), tt)
  All-cons_head d (w ∷ ws) p (k, h) = ((p, k), h)

  All-of_cons_head : (d : ℕ) (ws : List Text) → All (All P) (cons_head d ws) → P d × All (All P) ws
  All-of_cons_head d [] h = (h.0.0, tt)
  All-of_cons_head d (w ∷ ws) h = (h.0.0, (h.0.1, h.1))

  -- What holds of the characters of every part, and of the separator, holds of the whole.
  pub All-of_split : (c : ℕ) (s : Text) → P c → All (All P) (split c s) → All P s
  unfolding split
  All-of_split c [] p h = tt
  All-of_split c (d ∷ s) p h = elim (Bool-cases (nat_eq d c)) [
    | inl e ↦ let k = rw e at h in (subst P (sym ((nat_eq_iff d c).0 e)) p, All-of_split c s p k.1)
    | inr e ↦ let k = All-of_cons_head d (split c s) (rw e at h) in (k.0, All-of_split c s p k.1)
  ]

  pub All-split : (c : ℕ) (s : Text) → All P s → All (All P) (split c s)
  unfolding split
  All-split c [] h = (tt, tt)
  All-split c (d ∷ s) (p, h) = elim (Bool-cases (nat_eq d c)) [
    | inl e ↦ rw e (tt, All-split c s h)
    | inr e ↦ rw e (All-cons_head d (split c s) p (All-split c s h))
  ]

-- Trimming changes nothing where there is no space.
trim_left_of_plain : (s : Text) → All IsPlain s → trim_left s ≡ s
unfolding trim_left
trim_left_of_plain [] h = refl
trim_left_of_plain (c ∷ s) (p, h) = rw p

trim_right_of_plain : (s : Text) → All IsPlain s → trim_right s ≡ s
unfolding trim_right
trim_right_of_plain [] h = refl
trim_right_of_plain (c ∷ []) (p, h) = rw p
trim_right_of_plain (c ∷ d ∷ s) (p, h) = rw (trim_right_of_plain (d ∷ s) h)

pub trim_space_of_plain : (s : Text) → All IsPlain s → trim_space s ≡ s
unfolding trim_space
trim_space_of_plain s h = rw (trim_left_of_plain s h) (trim_right_of_plain s h)

-- Trimming twice is trimming once.
abbrev StartsPlain : Text → Type 0
StartsPlain [] = Unit
StartsPlain (c ∷ s) = IsPlain c

trim_left-StartsPlain : (s : Text) → StartsPlain (trim_left s)
unfolding trim_left
trim_left-StartsPlain [] = tt
trim_left-StartsPlain (c ∷ s) = elim (Bool-cases (is_space c)) [
  | inl e ↦ rw e (trim_left-StartsPlain s)
  | inr e ↦ rw e e
]

trim_left_of_StartsPlain : (s : Text) → StartsPlain s → trim_left s ≡ s
unfolding trim_left
trim_left_of_StartsPlain [] h = refl
trim_left_of_StartsPlain (c ∷ s) h = rw h

trim_right-StartsPlain : (s : Text) → StartsPlain s → StartsPlain (trim_right s)
unfolding trim_right
trim_right-StartsPlain [] h = tt
trim_right-StartsPlain (c ∷ s) h = go (trim_right s)
  where
    go : (t : Text) → StartsPlain (cons_trimmed c t)
    go [] = rw h h
    go (d ∷ t) = h

trim_right_of_cons_trimmed :
    (c : ℕ) (t : Text) → trim_right t ≡ t → trim_right (cons_trimmed c t) ≡ cons_trimmed c t
unfolding trim_right
trim_right_of_cons_trimmed c [] h = elim (Bool-cases (is_space c)) [
  | inl e ↦ rw e
  | inr e ↦ rw (e, e)
]
trim_right_of_cons_trimmed c (d ∷ t) h = rw h

trim_right_idem : (s : Text) → trim_right (trim_right s) ≡ trim_right s
unfolding trim_right
trim_right_idem [] = refl
trim_right_idem (c ∷ s) = trim_right_of_cons_trimmed c (trim_right s) (trim_right_idem s)

pub trim_space_idem : (s : Text) → trim_space (trim_space s) ≡ trim_space s
unfolding trim_space
trim_space_idem s =
    let plain = trim_right-StartsPlain (trim_left s) (trim_left-StartsPlain s) in
    rw (trim_left_of_StartsPlain (trim_right (trim_left s)) plain) (trim_right_idem (trim_left s))

-- Whether the last character is `c`.
abbrev ends_with : ℕ → Text → Bool
ends_with c [] = false
ends_with c (d ∷ []) = nat_eq d c
ends_with c (d ∷ e ∷ s) = ends_with c (e ∷ s)

trim_suffix_of_other : (c : ℕ) (s : Text) → ends_with c s ≡ false → trim_suffix c s ≡ s
unfolding trim_suffix
trim_suffix_of_other c [] h = refl
trim_suffix_of_other c (d ∷ []) h = rw h
trim_suffix_of_other c (d ∷ e ∷ s) h = rw (trim_suffix_of_other c (e ∷ s) h)

abbrev tail : List Text → List Text
tail [] = []
tail (w ∷ ws) = ws

abbrev is_empty : Text → Bool
is_empty [] = true
is_empty (c ∷ s) = false

any_of_tail : (ws : List Text) → any is_empty (tail ws) ≡ true → any is_empty ws ≡ true
any_of_tail [] h = h
any_of_tail (w ∷ ws) h = ground arith

tail-cons_head :
    (d : ℕ) (ws : List Text) → any is_empty (tail ws) ≡ any is_empty (tail (cons_head d ws))
tail-cons_head d [] = refl
tail-cons_head d (w ∷ ws) = refl

-- A text that ends in the separator has an empty part.
empty_part : (c : ℕ) (s : Text) → ends_with c s ≡ true → any is_empty (tail (split c s)) ≡ true
unfolding split
empty_part c [] h = cc
empty_part c (d ∷ []) h = rw h
empty_part c (d ∷ e ∷ s) h = elim (Bool-cases (nat_eq d c)) [
  | inl q ↦ rw q (any_of_tail (split c (e ∷ s)) (empty_part c (e ∷ s) h))
  | inr q ↦ rw q (rw (← tail-cons_head d (split c (e ∷ s))) (empty_part c (e ∷ s) h))
]

-- If no part is empty, there is no separator at the end to trim.
module _ (p : Text → Bool) (rejects : p [] ≡ false) where
  not_empty : (ws : List Text) → all p ws ≡ true → any is_empty ws ≡ true → ⊥
  not_empty [] h k = cc
  not_empty ([] ∷ ws) h k = ground arith
  not_empty ((c ∷ w) ∷ ws) h k = not_empty ws (ground arith) k

  pub trim_suffix_of_split : (c : ℕ) (s : Text) → all p (split c s) ≡ true → trim_suffix c s ≡ s
  trim_suffix_of_split c s h = elim (Bool-cases (ends_with c s)) [
    | inl e ↦ absurd (not_empty (split c s) h (any_of_tail (split c s) (empty_part c s e)))
    | inr e ↦ trim_suffix_of_other c s e
  ]

-- A text without a character has no occurrence of it.
pub contains_of_All : (c : ℕ) (s : Text) → All (λ d. nat_eq d c ≡ false) s → contains c s ≡ false
unfolding contains
contains_of_All c [] h = refl
contains_of_All c (d ∷ s) (p, h) = ground (arith, contains_of_All c s h)

-- Lower case is settled after one pass, if it is for the table.
module _ (unicode_lower : ℕ → ℕ) where
  abbrev pub IsLowered : ℕ → Type 0
  IsLowered c = lower_rune unicode_lower c ≡ c

  pub to_lower_of_lowered : (s : Text) → All IsLowered s → to_lower unicode_lower s ≡ s
  unfolding to_lower
  to_lower_of_lowered [] h = refl
  to_lower_of_lowered (c ∷ s) (p, h) = cc (to_lower_of_lowered s h)

  -- unicode.ToLower changes nothing that it returned, above ASCII.
  abbrev pub IsLowerTable : Type 0
  IsLowerTable = (c : ℕ) → 0x80 ≤ c → lower_rune unicode_lower (unicode_lower c) ≡ unicode_lower c

  lower_rune_idem : IsLowerTable → (c : ℕ) → IsLowered (lower_rune unicode_lower c)
  unfolding lower_rune
  lower_rune_idem table c = ground (arith, table c)

  pub to_lower-All : IsLowerTable → (s : Text) → All IsLowered (to_lower unicode_lower s)
  unfolding to_lower
  to_lower-All table [] = tt
  to_lower-All table (c ∷ s) = (lower_rune_idem table c, to_lower-All table s)

pub has_prefix_sound : (p s : Text) → has_prefix p s ≡ true → (rest : Text) × (s ≡ p ++ rest)
unfolding has_prefix
has_prefix_sound [] s h = (s, refl)
has_prefix_sound (c ∷ p) [] h = cc
has_prefix_sound (c ∷ p) (d ∷ s) h =
    let (same, more) = and-eq-true (nat_eq c d) (has_prefix p s) h in
    let (rest, e) = has_prefix_sound p s more in (rest, cc ((nat_eq_iff c d).0 same))

pub has_prefix-append : (p rest : Text) → has_prefix p (p ++ rest) ≡ true
unfolding has_prefix
has_prefix-append [] rest = refl
has_prefix-append (c ∷ p) rest = rw ((nat_eq_iff c c).1 refl) (has_prefix-append p rest)

rune_len-pos : (c : ℕ) → 0 < rune_len c
rune_len-pos c = ground arith

-- Two texts that begin one text and have the same length are the same.
pub same_prefix : (p q rest more : Text) → p ++ rest ≡ q ++ more → len p ≡ len q → p ≡ q
unfolding len
same_prefix [] [] rest more h e = refl
same_prefix [] (d ∷ q) rest more h e = absurd (omega (arith, rune_len-pos d))
same_prefix (c ∷ p) [] rest more h e = absurd (omega (arith, rune_len-pos c))
same_prefix (c ∷ p) (d ∷ q) rest more h e =
    let head : c ≡ d = cc in
    let tail : p ++ rest ≡ q ++ more = cc in
    let shorter : len p ≡ len q = omega (arith, ap rune_len head) in
    cc (same_prefix p q rest more tail shorter)
