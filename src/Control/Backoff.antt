-- ===== src/Control/Backoff.antt =====
-- internal/control/uniqueness.go: the limits and delays of re-registration.
use go_multi_warp.Prelude.{
  ℕ, zero, suc, ◌+◌, ◌*◌, ◌^◌, ◌-◌, ◌≤◌, ◌<◌, ℤ, pos, negsuc, ◌≤ℤ◌, ◌<ℤ◌, ltb_ℤ, leb_ℤ, to_int64,
  to_int64_id, ltb, ◌≡◌, refl, ap, ◌∙◌, ◌⊎◌, Bytes, arith, is_empty, inl, inr, codes, if◌then◌else◌,
}
use go_multi_warp.Std.{trim_space}
use go_multi_warp.Config.{Uniqueness}

unfoldable pub max_attempts : Uniqueness → ℤ
max_attempts u = if leb_ℤ u.max_attempts (pos 0) then pos 8 else u.max_attempts

unfoldable pub backoff_base : Uniqueness → ℤ
backoff_base u = if leb_ℤ u.retry_backoff (pos 0) then pos 8000000000 else u.retry_backoff

unfoldable pub stagger : Uniqueness → ℤ
stagger u =
    if ltb_ℤ u.stagger (pos 0)
    then pos 0
    else if leb_ℤ u.stagger (pos 0)
    then pos 3000000000
    else u.stagger

unfoldable pub recheck_every : Uniqueness → ℤ
recheck_every u = if leb_ℤ u.recheck_every (pos 0) then pos 60000000000 else u.recheck_every

unfoldable pub recheck_max : Uniqueness → ℤ
recheck_max u = if ltb_ℤ u.recheck_max (pos 0) then pos 0 else u.recheck_max

unfoldable pub probe_url : Uniqueness → Bytes
probe_url u =
    if is_empty (trim_space u.probe_url)
    then codes "https://api.ipify.org"
    else trim_space u.probe_url

-- d << n, on an int64
unfoldable pub shifted : ℤ → ℕ → ℤ
shifted (pos d) n = to_int64 (pos (d * 2 ^ n))
shifted (negsuc d) n = to_int64 (negsuc ((d + 1) * 2 ^ n - 1))

-- The attempts are counted from 1; the shift stops at 3.
abbrev shift : ℕ → ℕ
shift attempt = if ltb 3 (attempt - 1) then 3 else attempt - 1

unfoldable pub attempt_backoff : ℕ → Uniqueness → ℤ
attempt_backoff attempt u =
    let d = shifted (backoff_base u) (shift attempt) in
    if ltb_ℤ (pos 60000000000) d then pos 60000000000 else d

-- The base delay is at least a nanosecond.
backoff_base-pos :
    (u : Uniqueness)
    → u.retry_backoff <ℤ pos 0x800000000000000
    → (d : ℕ) × (backoff_base u ≡ pos d) × (0 < d) × (d < 0x800000000000000)
unfolding backoff_base
backoff_base-pos u h = by_sign u.retry_backoff h
  where
    by_sign :
        (r : ℤ)
        → r <ℤ pos 0x800000000000000
        → (d : ℕ) × ((if leb_ℤ r (pos 0) then pos 8000000000 else r) ≡ pos d)
          × (0 < d)
          × (d < 0x800000000000000)
    by_sign (pos zero) h = (8000000000, refl, omega arith, omega arith)
    by_sign (pos (suc d)) h = (suc d, ground arith, omega arith, omega arith)
    by_sign (negsuc d) h = (8000000000, ground arith, omega arith, omega arith)

-- One to eight times the base, by the shift.
abbrev Scaled : ℕ → ℕ → ℤ → Type 0
Scaled d k r =
    ((k ≡ 0) × (r ≡ pos d))
    ⊎ ((k ≡ 1) × (r ≡ pos (d * 2)))
    ⊎ ((k ≡ 2) × (r ≡ pos (d * 4)))
    ⊎ ((k ≡ 3) × (r ≡ pos (d * 8)))

shifted-Scaled : (d k : ℕ) → d < 0x800000000000000 → k ≤ 3 → Scaled d k (shifted (pos d) k)
unfolding shifted
shifted-Scaled d zero h le =
    inl (refl, to_int64_id (pos (d * 1)) (omega arith, omega arith) ∙ ap pos (omega arith))
shifted-Scaled d (suc zero) h le =
    inr (inl (refl, to_int64_id (pos (d * 2)) (omega arith, omega arith)))
shifted-Scaled d (suc (suc zero)) h le =
    inr (inr (inl (refl, to_int64_id (pos (d * 4)) (omega arith, omega arith))))
shifted-Scaled d (suc (suc (suc zero))) h le =
    inr (inr (inr (refl, to_int64_id (pos (d * 8)) (omega arith, omega arith))))
shifted-Scaled d (suc (suc (suc (suc k)))) h le = absurd (omega arith)

-- With a base delay below 2 ^ 59, the delay before an attempt is positive, at most a minute, and never
-- shorter for a later attempt.
attempt_backoff-le :
    (m n : ℕ) (u : Uniqueness)
    → u.retry_backoff <ℤ pos 0x800000000000000
    → m ≤ n
    → (pos 0 <ℤ attempt_backoff m u)
      × (attempt_backoff m u ≤ℤ attempt_backoff n u)
      × (attempt_backoff n u ≤ℤ pos 60000000000)
unfolding attempt_backoff
attempt_backoff-le m n u h le =
    let (d, e, low, high) = backoff_base-pos u h in
    rw e (
      ground (
        arith,
        shifted-Scaled d (shift m) high (ground arith),
        shifted-Scaled d (shift n) high (ground arith),
      ))
