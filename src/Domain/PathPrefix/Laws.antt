-- ===== src/Domain/PathPrefix/Laws.antt =====
-- What a normalised path prefix is like, and that normalising it again changes nothing.
use mathlib.Core.Logic.{◌≢◌}
use portloom.Domain.PathPrefix.{check_segments, is_bad_segment, is_path_char, normalize_path_prefix}
use portloom.Prelude.{
  All, Bool, Bool-cases, List, Text, [], all, any, arith, codes, false, inl, inr, not, refl, some,
  subst, sym, text_eq_iff, true, ℕ, ◌==◌, ◌||◌, ◌∷◌, ◌≡◌,
}
use portloom.Strings.{has_prefix, is_space, split, trim_space, trim_suffix}
use portloom.Strings.Laws.{All-trim_suffix, IsPlain, trim_space_of_plain, trim_suffix_of_split}

-- A segment that a prefix may have.
abbrev pub IsSegment : Text → Type 0
IsSegment w = (w ≢ []) × (w ≢ codes ".") × (w ≢ codes "..")

-- Either the whole domain, or a slash and segments between slashes.
abbrev pub IsPathPrefix : Text → Type 0
IsPathPrefix [] = Unit
IsPathPrefix (c ∷ s) =
    (c ≡ b'/') × All IsSegment (split b'/' s) × All (λ d. is_path_char d ≡ true) s

IsSegment-of_good : (w : Text) → is_bad_segment w ≡ false → IsSegment w
IsSegment-of_good w h =
    ground (arith, text_eq_iff w [], text_eq_iff w (codes "."), text_eq_iff w (codes ".."))

good_of_segment : (w : Text) → IsSegment w → is_bad_segment w ≡ false
good_of_segment w h =
    ground (arith, text_eq_iff w [], text_eq_iff w (codes "."), text_eq_iff w (codes ".."))

segments_of_good : (ws : List Text) → any is_bad_segment ws ≡ false → All IsSegment ws
segments_of_good [] h = tt
segments_of_good (w ∷ ws) h =
    (IsSegment-of_good w (ground arith), segments_of_good ws (ground arith))

good_of_segments : (ws : List Text) → All IsSegment ws → any is_bad_segment ws ≡ false
good_of_segments [] h = refl
good_of_segments (w ∷ ws) (p, h) = rw (good_of_segment w p) (good_of_segments ws h)

all-not_bad :
    (ws : List Text) → any is_bad_segment ws ≡ false → all (λ w. not (is_bad_segment w)) ws ≡ true
all-not_bad [] h = refl
all-not_bad (w ∷ ws) h = ground (arith, all-not_bad ws)

All-of_all : (s : Text) → all is_path_char s ≡ true → All (λ d. is_path_char d ≡ true) s
All-of_all [] h = tt
All-of_all (c ∷ s) h = (ground arith, All-of_all s (ground arith))

all-of_All : (s : Text) → All (λ d. is_path_char d ≡ true) s → all is_path_char s ≡ true
all-of_All [] h = refl
all-of_All (c ∷ s) (p, h) = rw p (all-of_All s h)

-- Empty, or a text that begins with a slash.
abbrev StartsSlash : Text → Type 0
StartsSlash [] = Unit
StartsSlash (c ∷ s) = c ≡ b'/'

trim_suffix-StartsSlash :
    (v : Text) → has_prefix (codes "/") v ≡ true → StartsSlash (trim_suffix b'/' v)
unfolding has_prefix trim_suffix
trim_suffix-StartsSlash [] h = tt
trim_suffix-StartsSlash (c ∷ []) h = ground arith
trim_suffix-StartsSlash (c ∷ d ∷ v) h = ground arith

check_segments-IsPathPrefix :
    (v p : Text)
    → StartsSlash v
    → All (λ d. is_path_char d ≡ true) v
    → check_segments v ≡ some p
    → IsPathPrefix p
unfolding check_segments
check_segments-IsPathPrefix [] p s k h = cc
check_segments-IsPathPrefix (c ∷ v) p s (k, ks) h =
    elim (Bool-cases (any is_bad_segment (split b'/' v))) [
      | inl e ↦ absurd (ground arith)
      | inr e ↦
          let same : (c ∷ v) ≡ p = ground arith in
          subst IsPathPrefix same (s, segments_of_good (split b'/' v) e, ks)
    ]

-- Whatever the value, a prefix that NormalizePathPrefix returns is empty, or begins with a slash
-- and has only allowed characters and segments that are neither empty, `.` nor `..`; so it does
-- not end in a slash.
pub normalize_path_prefix-IsPathPrefix :
    (raw p : Text) → normalize_path_prefix raw ≡ some p → IsPathPrefix p
unfolding normalize_path_prefix
normalize_path_prefix-IsPathPrefix raw p h = elim (Bool-cases whole) [
  | inl e ↦ let same : [] ≡ p = ground arith in subst IsPathPrefix same tt
  | inr e ↦ elim (Bool-cases (not (has_prefix (codes "/") value) || not (all is_path_char value))) [
    | inl bad ↦ absurd (ground arith)
    | inr good ↦
        check_segments-IsPathPrefix (trim_suffix b'/' value) p
          (trim_suffix-StartsSlash value (ground arith))
          (All-trim_suffix (λ d. is_path_char d ≡ true) b'/' value
            (All-of_all value (ground arith)))
          (ground arith)
  ]
]
  where
    value : Text
    value = trim_space raw

    whole : Bool
    whole = value == [] || value == codes "/"

is_path_char-IsPlain : (c : ℕ) → is_path_char c ≡ true → is_space c ≡ false
unfolding is_space
is_path_char-IsPlain c h = ground arith

IsPlain-chars : (s : Text) → All (λ d. is_path_char d ≡ true) s → All IsPlain s
IsPlain-chars [] h = tt
IsPlain-chars (c ∷ s) (p, h) = (is_path_char-IsPlain c p, IsPlain-chars s h)

-- The segments leave no slash at the end to trim.
trim_suffix-segments :
    (c : ℕ) (s : Text) → All IsSegment (split b'/' s) → trim_suffix b'/' (c ∷ s) ≡ c ∷ s
unfolding trim_suffix split ◌==◌
trim_suffix-segments c [] h = absurd (h.0.0 refl)
trim_suffix-segments c (d ∷ s) h =
    let good = all-not_bad (split b'/' (d ∷ s)) (good_of_segments (split b'/' (d ∷ s)) h) in
    rw (trim_suffix_of_split (λ w. not (is_bad_segment w)) refl b'/' (d ∷ s) good)

-- NormalizePathPrefix returns a normalised prefix unchanged.
pub normalize_path_prefix_of_IsPathPrefix :
    (p : Text) → IsPathPrefix p → normalize_path_prefix p ≡ some p
unfolding normalize_path_prefix
normalize_path_prefix_of_IsPathPrefix [] h = refl
normalize_path_prefix_of_IsPathPrefix (c ∷ s) (slash, segments, chars) =
    let path_char = subst (λ d. is_path_char d ≡ true) (sym slash) refl in
    let chars_ok = all-of_All (c ∷ s) (path_char, chars) in
    let good = good_of_segments (split b'/' s) segments in
    rw (
      trim_space_of_plain (c ∷ s) (IsPlain-chars (c ∷ s) (path_char, chars)),
      chars_ok,
      trim_suffix-segments c s segments,
      good,
      whole s segments,
      slash,
    )
  where
    whole : (t : Text) → All IsSegment (split b'/' t) → (c ∷ t == codes "/") ≡ false
    whole [] h = absurd (h.0.0 refl)
    whole (d ∷ t) h = ground arith
