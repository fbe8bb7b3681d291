-- ===== src/EdgeBacklog/Retry.antt =====
-- internal/edgebacklog/backlog.go: the pauses between the attempts at a record.
use native.Mathlib.Nat.{mul_assoc, mul_comm}
use native.Mathlib.Numerals.{unary_clauses}
use monitoreoedgeis.Prelude.{
  ℕ, zero, suc, ◌*◌, ◌≤◌, ◌≡◌, sym, ◌∙◌, ap, arith, ltb, ◌^◌, min, if◌then◌else◌,
}
use monitoreoedgeis.EdgeBacklog.{Config, double, backoff}
use monitoreoedgeis.EdgeBacklog.Process.{SendError, retry_delay}

pow_step : (n d : ℕ) → d * 2 ^ suc n ≡ (d * 2) * 2 ^ n
pow_step n d =
    simp unary_clauses (ap (λ k. d * k) (mul_comm (2 ^ n) 2) ∙ sym (mul_assoc d 2 (2 ^ n)))

pow_grows : (n d : ℕ) → d ≤ d * 2 ^ n
pow_grows zero d = omega arith
pow_grows (suc n) d = omega (arith, pow_step n d, pow_grows n (d * 2))

double_lem :
    (cfg : Config) (n d : ℕ)
    → (if ltb cfg.retry_max (double cfg n d) then cfg.retry_max else double cfg n d)
      ≡ min cfg.retry_max (d * 2 ^ n)
unfolding double
double_lem cfg zero d = ground arith
double_lem cfg (suc n) d =
    ground (arith, double_lem cfg n (d * 2), pow_step n d, pow_grows (suc n) d)

-- The backoff after the n-th failure in a row is RetryBase doubled n - 1 times, and never more than
-- RetryMax.
pub backoff_lem :
    (cfg : Config) (n : ℕ) → backoff cfg (suc n) ≡ min cfg.retry_max (cfg.retry_base * 2 ^ n)
unfolding backoff
backoff_lem cfg n = double_lem cfg n cfg.retry_base

-- A pause is at most RetryMax, whatever the server asks for.
pub retry_delay_bound :
    (cfg : Config) (attempts : ℕ) (e : SendError) → retry_delay cfg attempts e ≤ cfg.retry_max
unfolding retry_delay backoff
retry_delay_bound cfg zero e = ground arith
retry_delay_bound cfg (suc n) e = ground arith
