-- ===== src/Metrics/Window.antt =====
-- The series of the last hour against the history of observations.
use portloom.Metrics.{
  Registry, Sample, add_sample, empty_sample, fresh_slot, new, observe, sample_at, series,
  series_minutes, slot_at, snapshot,
}
use portloom.Prelude.{
  Bool-cases, List, Text, [], arith, false, get_or, get_or-set_ne, get_or-set_self, if◌then◌else◌,
  inl, inr, length, length-set, map, nat_eq, nat_eq_iff, refl, replicate, subst, suc, sym, zero, ℕ,
  ◌%◌, ◌*◌, ◌+◌, ◌-◌, ◌<◌, ◌∙◌, ◌∷◌, ◌≡◌, ◌≢◌, ◌≤◌,
}

pub record Observation : Type 0 where
  pub minute : ℕ
  pub id : Text
  pub requests : ℕ
  pub bytes_in : ℕ
  pub bytes_out : ℕ

abbrev pub record_observation : Registry → Observation → Registry
record_observation r o = observe r o.minute o.id o.requests o.bytes_in o.bytes_out

-- The registry after a history, which has its latest observation first.
unfoldable pub run : List Observation → Registry
run [] = new
run (o ∷ history) = record_observation (run history) o

-- The clock never goes back, and stands at `minute` after the history.
abbrev pub IsOrdered : List Observation → ℕ → Type 0
IsOrdered [] minute = Unit
IsOrdered (o ∷ history) minute = (o.minute ≤ minute) × IsOrdered history o.minute

-- What was observed in one minute.
abbrev pub sum_at : List Observation → ℕ → Sample
sum_at [] target = empty_sample (target * 60)
sum_at (o ∷ history) target =
    let rest = sum_at history target in
    if nat_eq o.minute target then add_sample rest o.requests o.bytes_in o.bytes_out else rest

length-slots : (history : List Observation) → length (run history).slots ≡ 60
unfolding run new observe
length-slots [] = refl
length-slots (o ∷ history) =
    length-set (run history).slots (o.minute % series_minutes) _ ∙ length-slots history

sum_at-zero :
    (history : List Observation) (minute target : ℕ)
    → IsOrdered history minute
    → minute < target
    → sum_at history target ≡ empty_sample (target * 60)
sum_at-zero [] minute target h later = refl
sum_at-zero (o ∷ history) minute target (h, hs) later =
    ground (arith, sum_at-zero history o.minute target hs)

-- The slot of a minute that the registry has just written.
module _ (r : Registry) (full : length r.slots ≡ 60) (o : Observation) where
  sample_at_self :
      sample_at (record_observation r o) o.minute
      ≡ add_sample (sample_at r o.minute) o.requests o.bytes_in o.bytes_out
  unfolding observe sample_at
  sample_at_self =
      rw
        (get_or-set_self r.slots (o.minute % 60)
          (add_sample (fresh_slot (slot_at r.slots o.minute) o.minute) o.requests o.bytes_in
            o.bytes_out)
          (empty_sample 0) (omega arith))
        (ground arith)

  sample_at-other :
      (target : ℕ)
      → target % 60 ≢ o.minute % 60
      → sample_at (record_observation r o) target ≡ sample_at r target
  unfolding observe sample_at
  sample_at-other target h = rw (
      get_or-set_ne r.slots (o.minute % 60) (target % 60)
        (add_sample (fresh_slot (slot_at r.slots o.minute) o.minute) o.requests o.bytes_in
          o.bytes_out)
        (empty_sample 0) (λ e. h (sym e)))

  -- A later minute in the same slot: the slot does not hold it yet.
  sample_at-later :
      (target : ℕ)
      → target % 60 ≡ o.minute % 60
      → o.minute ≢ target
      → sample_at (record_observation r o) target ≡ empty_sample (target * 60)
  unfolding observe sample_at
  sample_at-later target h ne =
      rw
        (
          h,
          get_or-set_self r.slots (o.minute % 60)
              (add_sample (fresh_slot (slot_at r.slots o.minute) o.minute) o.requests o.bytes_in
                o.bytes_out)
              (empty_sample 0) (omega arith),
        )
        (ground arith)

get_or-replicate : (n i : ℕ) (s : Sample) → get_or (replicate n s) i s ≡ s
get_or-replicate zero i s = refl
get_or-replicate (suc n) zero s = refl
get_or-replicate (suc n) (suc i) s = get_or-replicate n i s

fresh_empty : (target : ℕ) → fresh_slot (empty_sample 0) target ≡ empty_sample (target * 60)
fresh_empty target = ground arith

sample_at-new : (target : ℕ) → sample_at new target ≡ empty_sample (target * 60)
unfolding sample_at new
sample_at-new target = rw (get_or-replicate 60 (target % 60) (empty_sample 0)) (fresh_empty target)

sum_at-other :
    (o : Observation) (history : List Observation) (target : ℕ)
    → nat_eq o.minute target ≡ false
    → sum_at (o ∷ history) target ≡ sum_at history target
sum_at-other o history target e = rw e

sum_at_self :
    (o : Observation) (history : List Observation) (r : Registry)
    → sample_at r o.minute ≡ sum_at history o.minute
    → add_sample (sample_at r o.minute) o.requests o.bytes_in o.bytes_out
      ≡ sum_at (o ∷ history) o.minute
sum_at_self o history r e = rw ((nat_eq_iff o.minute o.minute).1 refl, e)

-- Two minutes of one slot are an hour apart.
later_of_slot : (m target : ℕ) → target % 60 ≡ m % 60 → m ≢ target → m < target + 60 → m < target
later_of_slot m target same ne near = omega arith

-- The sample of a minute that is less than an hour old is the sum of what was observed in it.
pub sample_at-run :
    (history : List Observation) (minute target : ℕ)
    → IsOrdered history minute
    → minute < target + 60
    → sample_at (run history) target ≡ sum_at history target
unfolding run
sample_at-run [] minute target h recent = sample_at-new target
sample_at-run (o ∷ history) minute target (h, hs) recent =
    let r = run history in
    let full = length-slots history in
    let ih = sample_at-run history o.minute target hs (omega arith) in
    elim (Bool-cases (nat_eq o.minute target)) [
      | inl e ↦
          let same = (nat_eq_iff o.minute target).0 e in
          subst (λ m. sample_at (record_observation r o) m ≡ sum_at (o ∷ history) m) same
            (sample_at_self r full o
              ∙ sum_at_self o history r (sample_at-run history o.minute o.minute hs (omega arith)))
      | inr e ↦ elim (Bool-cases (nat_eq (target % 60) (o.minute % 60))) [
        | inl q ↦
            sample_at-later r full o target ((nat_eq_iff _ _).0 q) (ground arith)
            ∙ sym (
                sum_at-other o history target e
                ∙ sum_at-zero history o.minute target hs (
                    later_of_slot o.minute target ((nat_eq_iff _ _).0 q) (ground arith)
                      (omega arith)))
        | inr q ↦
            sample_at-other r full o target (λ p. ground arith)
            ∙ ih
            ∙ sym (sum_at-other o history target e)
      ]
    ]

-- The minutes of the window, oldest first.
abbrev pub window : ℕ → ℕ → List ℕ
window minute zero = []
window minute (suc offset) = (minute - offset) ∷ window minute offset

series-run :
    (history : List Observation) (minute n : ℕ)
    → IsOrdered history minute
    → n ≤ minute
    → n ≤ 60
    → series (run history) minute n ≡ map (sum_at history) (window minute n)
unfolding series
series-run history minute zero h past short = refl
series-run history minute (suc n) h past short = cc (
  sample_at-run history minute (minute - n) h (omega arith),
  series-run history minute n h (omega arith) (omega arith),
)

-- After any observations under a clock that does not go back, the snapshot's series has, for each
-- of the sixty minutes up to now and oldest first, the sum of what was observed in that minute.
pub series-snapshot :
    (history : List Observation) (minute : ℕ)
    → IsOrdered history minute
    → 60 ≤ minute
    → (snapshot (run history) minute).series ≡ map (sum_at history) (window minute 60)
unfolding snapshot
series-snapshot history minute h past = series-run history minute 60 h past (omega arith)
