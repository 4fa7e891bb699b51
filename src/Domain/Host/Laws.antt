-- ===== src/Domain/Host/Laws.antt =====
-- What a normalised DNS name is like, and that normalising it again changes nothing.
use mathlib.Core.Logic.{◌≢◌}
use portloom.Domain.Host.{
  ends_alnum, is_dns_host, is_host_alnum, is_host_char, is_label, last_label, matches_hostname,
  normalize_dns_host,
}
use portloom.Net.{is_ip}
use portloom.Prelude.{
  All, All-imp, List, Text, [], all, and-eq-true, any, arith, false, length, nat_eq, refl, some,
  subst, true, ℕ, ◌&&◌, ◌||◌, ◌∷◌, ◌≡◌, ◌≤◌,
}
use portloom.Strings.{
  contains, is_lower, is_space, is_upper, len, lower_rune, split, to_lower, trim_space, trim_suffix,
}
use portloom.Strings.Laws.{
  All-of_split, All-split, All-trim_space, All-trim_suffix, IsLowerTable, IsLowered,
  contains_of_All, to_lower-All, to_lower_of_lowered, trim_space_of_plain, trim_suffix_of_split,
}

-- A label as hostnameRE describes it, in lower case.
pub record IsLabel (w : Text) : Type 0 where
  pub nonempty : w ≢ []
  pub short : length w ≤ 63
  pub chars : All (λ c. (is_host_char c ≡ true) × (is_upper c ≡ false)) w

-- A name for which a certificate may be requested.
pub record IsDnsName (s : Text) : Type 0 where
  pub no_ip : is_ip s ≡ false
  pub short : len s ≤ 253
  pub labels : All IsLabel (split b'.' s)
  pub two_labels : 2 ≤ length (split b'.' s)
  pub has_letter : any is_lower (last_label (split b'.' s)) ≡ true

ends_alnum-chars : (s : Text) → ends_alnum s ≡ true → All (λ c. is_host_char c ≡ true) s
unfolding ends_alnum
ends_alnum-chars [] h = tt
ends_alnum-chars (c ∷ []) h = (ground arith, tt)
ends_alnum-chars (c ∷ d ∷ s) h =
    let (p, k) = and-eq-true (is_host_char c) (ends_alnum (d ∷ s)) h in
    (p, ends_alnum-chars (d ∷ s) k)

is_label-chars : (s : Text) → is_label s ≡ true → All (λ c. is_host_char c ≡ true) s
unfolding is_label
is_label-chars [] h = tt
is_label-chars (c ∷ []) h = (ground arith, tt)
is_label-chars (c ∷ d ∷ s) h =
    let (k, r) = and-eq-true (is_host_alnum c && ends_alnum (d ∷ s)) _ h in
    let (p, q) = and-eq-true (is_host_alnum c) (ends_alnum (d ∷ s)) k in
    (ground arith, ends_alnum-chars (d ∷ s) q)

is_label-nonempty : (s : Text) → is_label s ≡ true → s ≢ []
unfolding is_label
is_label-nonempty [] h = cc
is_label-nonempty (c ∷ s) h = cc

is_label-short : (s : Text) → is_label s ≡ true → length s ≤ 63
unfolding is_label
is_label-short [] h = omega arith
is_label-short (c ∷ []) h = omega arith
is_label-short (c ∷ d ∷ s) h = ground arith

all-chars : (ws : List Text) → all is_label ws ≡ true → All (All (λ c. is_host_char c ≡ true)) ws
all-chars [] h = tt
all-chars (w ∷ ws) h =
    let (p, k) = and-eq-true (is_label w) (all is_label ws) h in
    (is_label-chars w p, all-chars ws k)

-- The characters of a host name: those of labels, and dots.
abbrev IsHostText : ℕ → Type 0
IsHostText c = (is_host_char c || nat_eq c b'.') ≡ true

matches_hostname-chars : (s : Text) → matches_hostname s ≡ true → All IsHostText s
unfolding matches_hostname
matches_hostname-chars s h =
    All-of_split IsHostText b'.' s refl
      (All-imp (split b'.' s) (λ w. All-imp w (λ c p. ground arith)) (all-chars (split b'.' s) h))

IsHostText-IsPlain : (c : ℕ) → IsHostText c → is_space c ≡ false
unfolding is_space
IsHostText-IsPlain c h = ground arith

IsHostText-no_colon : (c : ℕ) → IsHostText c → nat_eq c b':' ≡ false
IsHostText-no_colon c h = ground arith

-- A matching host name has nothing to trim, and no colon.
module _ (s : Text) (h : matches_hostname s ≡ true) where
  pub trim_space-hostname : trim_space s ≡ s
  trim_space-hostname =
      trim_space_of_plain s (All-imp s IsHostText-IsPlain (matches_hostname-chars s h))

  pub trim_suffix-hostname : trim_suffix b'.' s ≡ s
  unfolding matches_hostname is_label
  trim_suffix-hostname = trim_suffix_of_split is_label refl b'.' s h

  pub contains-hostname : contains b':' s ≡ false
  contains-hostname =
      contains_of_All b':' s (All-imp s IsHostText-no_colon (matches_hostname-chars s h))

abbrev IsLower : ℕ → Type 0
IsLower c = is_upper c ≡ false

-- The checks that a value passed, by themselves.
pub is_dns_host-checks :
    (s : Text)
    → is_dns_host s ≡ true
    → (is_ip s ≡ false)
      × (len s ≤ 253)
      × (matches_hostname s ≡ true)
      × (2 ≤ length (split b'.' s))
      × (any is_lower (last_label (split b'.' s)) ≡ true)
unfolding is_dns_host
is_dns_host-checks s h = (ground arith, ground arith, ground arith, ground arith, ground arith)

All-both :
    (v : Text)
    → All (λ c. is_host_char c ≡ true) v
    → All IsLower v
    → All (λ c. (is_host_char c ≡ true) × (is_upper c ≡ false)) v
All-both [] p q = tt
All-both (c ∷ v) (p, ps) (q, qs) = ((p, q), All-both v ps qs)

module _ (unicode_lower : ℕ → ℕ) (table : IsLowerTable unicode_lower) where
  IsLowered-IsLower : (c : ℕ) → IsLowered unicode_lower c → IsLower c
  unfolding lower_rune
  IsLowered-IsLower c h = ground arith

  -- A result came through lower case, and keeps its characters in trimming.
  pub normalize_dns_host-inv :
      (raw s : Text)
      → normalize_dns_host unicode_lower raw ≡ some s
      → (is_dns_host s ≡ true) × All (IsLowered unicode_lower) s
  unfolding normalize_dns_host
  normalize_dns_host-inv raw s h =
      let v = trim_space (to_lower unicode_lower raw) in
      let w = trim_suffix b'.' v in
      let kept = All-trim_suffix (IsLowered unicode_lower) b'.' v (
        All-trim_space (IsLowered unicode_lower) (to_lower unicode_lower raw)
          (to_lower-All unicode_lower table raw)) in
      let e : w ≡ s = ground arith in (ground arith, subst (All (IsLowered unicode_lower)) e kept)

  All-IsLabel : (ws : List Text) → all is_label ws ≡ true → All (All IsLower) ws → All IsLabel ws
  All-IsLabel [] h k = tt
  All-IsLabel (w ∷ ws) h (k, ks) =
      let (p, q) = and-eq-true (is_label w) (all is_label ws) h in
      (
        record {
          nonempty = is_label-nonempty w p;
          short = is_label-short w p;
          chars = All-both w (is_label-chars w p) k;
        },
        All-IsLabel ws q ks,
      )

  -- Whatever the value, a name that NormalizeDNSHost returns has at most 253 bytes, is no IP
  -- address, and has two labels at least, each nonempty, of at most 63 host characters in lower
  -- case; the last label has a letter.
  pub normalize_dns_host-IsDnsName :
      (raw s : Text) → normalize_dns_host unicode_lower raw ≡ some s → IsDnsName s
  unfolding matches_hostname
  normalize_dns_host-IsDnsName raw s h =
      let (ok, low) = normalize_dns_host-inv raw s h in
      let (no_ip, short, matched, two, letter) = is_dns_host-checks s ok in
      record {
        no_ip = no_ip;
        short = short;
        labels =
            All-IsLabel (split b'.' s) matched
              (All-split IsLower b'.' s (All-imp s IsLowered-IsLower low));
        two_labels = two;
        has_letter = letter;
      }

  -- A name that NormalizeDNSHost returned comes back unchanged.
  pub normalize_dns_host_idem :
      (raw s : Text)
      → normalize_dns_host unicode_lower raw ≡ some s
      → normalize_dns_host unicode_lower s ≡ some s
  unfolding normalize_dns_host
  normalize_dns_host_idem raw s h =
      let (ok, low) = normalize_dns_host-inv raw s h in
      let matched = (is_dns_host-checks s ok).2 in
      rw (
        to_lower_of_lowered unicode_lower s low,
        trim_space-hostname s matched,
        trim_suffix-hostname s matched,
        contains-hostname s matched,
        ok,
      )
