-- ===== src/Proxy/Listen/Draining.antt =====
-- What drain promises, and what main leaves it.
use go_multi_warp.Prelude.{
  ℕ, zero, suc, ◌+◌, ◌*◌, ◌/◌, ◌≤◌, ◌<◌, ℤ, pos, leb_ℤ, ltb, ◌==◌, Bool, true, false, ◌&&◌, ◌≡◌,
  refl, inl, inr, Option, some, arith, if◌then◌else◌, Bool-cases,
}
use go_multi_warp.Config.{Config}
use go_multi_warp.Proxy.Listen.{
  Drained, all_drained, forced, tick_ns, drain_timeout, drain_from, drain, main_exit, max_ℕ,
}

-- A connection was open at each tick before this time.
abbrev pub Busy : (ℕ → ℤ) → ℕ → Type 0
Busy active t = (j : ℕ) → j * tick_ns < t → leb_ℤ (active (j * tick_ns)) (pos 0) ≡ false

-- How drain may return at the time `t`.
abbrev pub Justified : (ℕ → ℤ) → ℕ → Drained → ℕ → Type 0
Justified active deadline all_drained t =
    (k : ℕ) × (t ≡ k * tick_ns) × (t ≤ deadline) × (leb_ℤ (active t) (pos 0) ≡ true) × Busy active t
Justified active deadline forced t = (t ≡ deadline) × Busy active t

abbrev Returns : (ℕ → ℤ) → ℕ → Option (Drained × ℕ) → Type 0
Returns active deadline o =
    (d : Drained) × (t : ℕ) × (o ≡ some (d, t)) × Justified active deadline d t

Busy-suc :
    (active : ℕ → ℤ) (k : ℕ)
    → Busy active (k * tick_ns)
    → leb_ℤ (active (k * tick_ns)) (pos 0) ≡ false
    → Busy active (suc k * tick_ns)
Busy-suc active k b f j h = elim (Bool-cases (ltb j k)) [
  | inl t ↦ b j (ground arith)
  | inr t ↦ let same : j ≡ k = ground arith in rw same f
]

Busy-le : (active : ℕ → ℤ) (t u : ℕ) → t ≤ u → Busy active u → Busy active t
Busy-le active t u l b j h = b j (omega arith)

drain_from-Returns :
    (active : ℕ → ℤ) (tie : ℕ → Bool) (deadline rounds k : ℕ)
    → k * tick_ns ≤ deadline
    → deadline < (k + rounds) * tick_ns
    → Busy active (k * tick_ns)
    → Returns active deadline (drain_from active tie deadline rounds k)
unfolding drain_from
drain_from-Returns active tie deadline zero k l h b = absurd (omega arith)
drain_from-Returns active tie deadline (suc rounds) k l h b =
    elim (Bool-cases (leb_ℤ (active (k * tick_ns)) (pos 0))) [
      | inl t ↦ rw (t, if◌then◌else◌) (all_drained, k * tick_ns, refl, (k, refl, l, t, b))
      | inr f ↦ elim (Bool-cases (ltb deadline (suc k * tick_ns))) [
        | inl s ↦
            let at : max_ℕ deadline (k * tick_ns) ≡ deadline = ground arith in
            rw (f, if◌then◌else◌, s, if◌then◌else◌, at)
              (
                forced,
                deadline,
                refl,
                (
                  refl,
                  Busy-le active deadline (suc k * tick_ns) (ground arith) (Busy-suc active k b f),
                ),
              )
        | inr s ↦ elim (Bool-cases (deadline == suc k * tick_ns && tie k)) [
          | inl e ↦
              rw (f, if◌then◌else◌, s, if◌then◌else◌, e, if◌then◌else◌)
                (
                  forced,
                  deadline,
                  refl,
                  (
                    refl,
                    Busy-le active deadline (suc k * tick_ns) (ground arith)
                        (Busy-suc active k b f),
                  ),
                )
          | inr e ↦
              rw (f, if◌then◌else◌, s, if◌then◌else◌, e, if◌then◌else◌)
                (drain_from-Returns active tie deadline rounds (suc k) (ground arith) (omega arith)
                  (Busy-suc active k b f))
        ]
      ]
    ]

-- drain returns, at the latest when its timeout has passed: either at the first tick at which no connection
-- is open any more, or, with a connection open at every tick before, exactly at the timeout.
pub drain-Justified :
    (active : ℕ → ℤ) (tie : ℕ → Bool) (c : Config)
    → (d : Drained) × (t : ℕ) × (drain active tie c ≡ some (d, t))
      × Justified active (drain_timeout c) d t
unfolding drain
drain-Justified active tie c =
    drain_from-Returns active tie (drain_timeout c) (drain_timeout c / tick_ns + 2) 0 (omega arith)
      (omega arith) (λ j h. absurd (omega arith))

after_main :
    (active : ℕ → ℤ) (deadline : ℕ) (d : Drained) (t : ℕ)
    → main_exit < deadline
    → ((j : ℕ) → j ≤ 5 → leb_ℤ (active (j * tick_ns)) (pos 0) ≡ false)
    → Justified active deadline d t
    → main_exit < t
after_main active deadline forced t l busy (e, b) = omega arith
after_main active deadline all_drained t l busy (k, e, u, idle, b) = elim (Bool-cases (ltb k 6)) [
  | inl early ↦
      let open_then = busy k (ground arith) in
      let idle_then : leb_ℤ (active (k * tick_ns)) (pos 0) ≡ true = rw e at idle in
      absurd (cc (open_then, idle_then))
  | inr late ↦ let far : 6 ≤ k = ground arith in omega arith
]

-- When a connection is still open at every tick of the first half second after the shutdown signal, and
-- the drain timeout is longer than that, drain returns only after main has: the process ends with the
-- connection open.
pub drain-main_exit :
    (active : ℕ → ℤ) (tie : ℕ → Bool) (c : Config)
    → main_exit < drain_timeout c
    → ((j : ℕ) → j ≤ 5 → leb_ℤ (active (j * tick_ns)) (pos 0) ≡ false)
    → (d : Drained) × (t : ℕ) × (drain active tie c ≡ some (d, t)) × (main_exit < t)
drain-main_exit active tie c l busy =
    let (d, t, e, x) = drain-Justified active tie c in
    (d, t, e, after_main active (drain_timeout c) d t l busy x)
