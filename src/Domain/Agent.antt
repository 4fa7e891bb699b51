-- ===== src/Domain/Agent.antt =====
-- internal/domain/agent.go and enrollment.go. A time is the nanoseconds since Go's zero time.
use portloom.Prelude.{
  Bool, Option, Text, [], all, false, leb, length, nat_eq, ℕ, ℤ, ◌&&◌, ◌||◌, ◌∷◌,
}
use portloom.Strings.{is_digit, is_lower, is_upper}

-- time.Time: 0 is the zero value, for which IsZero holds.
abbrev pub Time : Type 0
Time = ℕ

pub record Agent : Type 0 where
  pub id : Text
  pub name : Text
  pub desired_revision : ℤ
  pub observed_revision : ℤ
  pub last_seen_at : Time
  pub created_at : Time
  pub updated_at : Time

pub record AgentSshKey : Type 0 where
  pub agent_id : Text
  pub public_key : Text

pub record RouteObservation : Type 0 where
  pub route_id : Text
  pub observed_revision : ℤ
  pub local_status : Text
  pub tunnel_status : Text
  pub last_error : Text

pub record EnrollmentTokenInfo : Type 0 where
  pub id : Text
  pub status : Text
  pub expires_at : Time
  pub created_at : Time
  pub used_at : Option Time

-- agentNameRE: a letter or digit, then at most 63 of [A-Za-z0-9._-].
abbrev pub is_name_start : ℕ → Bool
is_name_start c = is_upper c || is_lower c || is_digit c

abbrev pub is_name_char : ℕ → Bool
is_name_char c = is_name_start c || nat_eq c b'.' || nat_eq c b'_' || nat_eq c b'-'

unfoldable pub valid_agent_name : Text → Bool
valid_agent_name [] = false
valid_agent_name (c ∷ s) = is_name_start c && all is_name_char s && leb (length s) 63
