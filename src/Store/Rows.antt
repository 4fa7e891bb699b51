-- ===== src/Store/Rows.antt =====
-- How the statements on tables keep what holds of all rows, and of all pairs of rows.
use portloom.Prelude.{
  All, Bool, Bool-cases, List, Pairwise, [], any, arith, false, find, if◌then◌else◌, inl, inr, keep,
  none, refl, some, subst, true, ◌∷◌, ◌≡◌,
}
use portloom.Store.Db.{update_where}

module _ {ℓ} {A : Type ℓ} where
  module _ {κ} {P Q : A → Type κ} where
    pub All-update_where :
        (p : A → Bool) (f : A → A) (l : List A)
        → ((x : A) → p x ≡ true → P x → Q (f x))
        → ((x : A) → p x ≡ false → P x → Q x)
        → All P l
        → All Q (update_where p f l)
    All-update_where p f [] changed kept h = tt
    All-update_where p f (x ∷ l) changed kept (k, h) = elim (Bool-cases (p x)) [
      | inl e ↦ rw e (changed x e k, All-update_where p f l changed kept h)
      | inr e ↦ rw e (kept x e k, All-update_where p f l changed kept h)
    ]

  module _ {κ} (P : A → Type κ) where
    pub All-keep : (p : A → Bool) (l : List A) → All P l → All P (keep p l)
    All-keep p [] h = tt
    All-keep p (x ∷ l) (k, h) = elim (Bool-cases (p x)) [
      | inl e ↦ rw e (k, All-keep p l h)
      | inr e ↦ rw e (All-keep p l h)
    ]

    pub All-find : (p : A → Bool) (l : List A) {a : A} → All P l → find p l ≡ some a → P a
    All-find p [] h e = cc
    All-find p (x ∷ l) (k, h) e = elim (Bool-cases (p x)) [
      | inl t ↦ subst P (ground arith) k
      | inr t ↦ All-find p l h (ground arith)
    ]

  -- A row that is found passes the test.
  pub find_sound : (p : A → Bool) (l : List A) {a : A} → find p l ≡ some a → p a ≡ true
  find_sound p [] e = cc
  find_sound p (x ∷ l) {a} e = elim (Bool-cases (p x)) [
    | inl t ↦ subst (λ y. p y ≡ true) (ground arith) t
    | inr t ↦ find_sound p l (ground arith)
  ]

  -- Where a change keeps the test, the row that is found is the changed one.
  pub find-update_where :
      (p q : A → Bool) (f : A → A) (l : List A)
      → ((x : A) → p (f x) ≡ p x)
      → find p (update_where q f l)
        ≡ (elim (find p l) [ none ↦ none | some a ↦ some (if q a then f a else a) ])
  find-update_where p q f [] same = refl
  find-update_where p q f (x ∷ l) same = elim (Bool-cases (q x)) [
    | inl e ↦ ground (arith, same x, find-update_where p q f l same)
    | inr e ↦ ground (arith, find-update_where p q f l same)
  ]

  -- A row that nothing passes is not found.
  pub find_of_any : (p : A → Bool) (l : List A) → any p l ≡ true → (a : A) × (find p l ≡ some a)
  find_of_any p [] h = cc
  find_of_any p (x ∷ l) h = elim (Bool-cases (p x)) [
    | inl e ↦ (x, rw e)
    | inr e ↦ let (a, k) = find_of_any p l (ground arith) in (a, rw e k)
  ]

  pub All-of_any : (p : A → Bool) (l : List A) → any p l ≡ false → All (λ x. p x ≡ false) l
  All-of_any p [] h = tt
  All-of_any p (x ∷ l) h = (ground arith, All-of_any p l (ground arith))

  module _ {κ} (R : A → A → Type κ) where
    pub Pairwise-keep : (p : A → Bool) (l : List A) → Pairwise R l → Pairwise R (keep p l)
    Pairwise-keep p [] h = tt
    Pairwise-keep p (x ∷ l) (k, h) = elim (Bool-cases (p x)) [
      | inl e ↦ rw e (All-keep (R x) p l k, Pairwise-keep p l h)
      | inr e ↦ rw e (Pairwise-keep p l h)
    ]

  -- The change of one row, and what it makes of a pair.
  abbrev pub changed : (A → Bool) → (A → A) → A → A
  changed p f x = if p x then f x else x

  module _ {κ} (K : A → Type κ) (R S : A → A → Type κ) (p : A → Bool) (f : A → A)
      (step : (x y : A) → K x → K y → R x y → S (changed p f x) (changed p f y)) where
    All-changed :
        (x : A) (l : List A)
        → K x
        → All K l
        → All (R x) l
        → All (S (changed p f x)) (update_where p f l)
    All-changed x [] k ks h = tt
    All-changed x (y ∷ l) k (ky, ks) (r, h) = (step x y k ky r, All-changed x l k ks h)

    pub Pairwise-update_where :
        (l : List A) → All K l → Pairwise R l → Pairwise S (update_where p f l)
    Pairwise-update_where [] ks h = tt
    Pairwise-update_where (x ∷ l) (k, ks) (r, h) =
        (All-changed x l k ks r, Pairwise-update_where l ks h)

  -- Where no two rows pass the test, the row that is found is the only one.
  module _ {κ} (R : A → A → Type κ) (p : A → Bool)
      (one : (x y : A) → R x y → p x ≡ true → p y ≡ true → ⊥) where
    none_other : (x : A) (l : List A) → p x ≡ true → All (R x) l → All (λ y. p y ≡ true → y ≡ x) l
    none_other x [] px h = tt
    none_other x (y ∷ l) px (r, h) = ((λ py. absurd (one x y r px py)), none_other x l px h)

    pub find_unique :
        (l : List A) {a : A} → Pairwise R l → find p l ≡ some a → All (λ y. p y ≡ true → y ≡ a) l
    find_unique [] h e = tt
    find_unique (x ∷ l) {a} (k, h) e = elim (Bool-cases (p x)) [
      | inl px ↦
          let same : x ≡ a = ground arith in
          ((λ t. same), subst (λ b. All (λ y. p y ≡ true → y ≡ b) l) same (none_other x l px k))
      | inr px ↦ let found : find p l ≡ some a = ground arith in ((λ t. cc), find_unique l h found)
    ]

  module _ {κ} (P Q : A → Type κ) where
    pub All-both : (l : List A) → All P l → All Q l → All (λ x. P x × Q x) l
    All-both [] h k = tt
    All-both (x ∷ l) (p, h) (q, k) = ((p, q), All-both l h k)
