-- ===== src/Domain/Host/Plain.antt =====
-- NormalizeHost on the names that NormalizeDNSHost returns.
use portloom.Domain.Host.{normalize_dns_host, normalize_host}
use portloom.Net.Laws.{split_host_port-none}
use portloom.Prelude.{Bool-cases, Text, arith, inl, inr, some, ℕ, ◌≡◌}
use portloom.Strings.{contains, to_lower, trim_space}

pub normalize_host-normalize_dns_host :
    (unicode_lower : ℕ → ℕ) (raw s : Text)
    → normalize_dns_host unicode_lower raw ≡ some s
    → normalize_host unicode_lower raw ≡ s
unfolding normalize_dns_host normalize_host
normalize_host-normalize_dns_host unicode_lower raw s h =
    let v = trim_space (to_lower unicode_lower raw) in
    elim (Bool-cases (contains b':' v)) [
      | inl e ↦ absurd (ground arith)
      | inr e ↦ rw (split_host_port-none v e) (ground arith)
    ]
