-- ===== src/Pool/Limiter/Race/Bounded.antt =====
-- The limits of ConnLimiter hold in every interleaving of the goroutines.
use go_multi_warp.Prelude.{
  ℕ, zero, suc, ◌+◌, ◌≤◌, ℤ, pos, negsuc, ◌≡◌, refl, sym, ap, ◌∙◌, inl, inr, List, [], ◌∷◌, Bytes,
  length, set, length-set, total, total-set, total-le, total-le-length, total-sum, arith,
}
use go_multi_warp.Pool.Limiter.Effects.{Small, Respects}
use go_multi_warp.Pool.Limiter.Race.{
  Limits, Pc, outside, unnamed, counted_ip, passed, back_ip, holding, leaving, System, Step, pick,
  Reach, start, later,
}
use go_multi_warp.Pool.Limiter.Race.Moves.{
  at_ip, in_global, in_ip, through_global, through_ip, through_global-le, through_ip-le,
  Respects-le, Move-global, Move-conns, Move-through_global, Move-through_ip,
}

-- What every step keeps, with `n` goroutines.
pub record Counted (l : Limits) (n : ℕ) (s : System) : Type 0 where
  pub size : length s.threads ≡ n
  pub global : s.counters.global ≡ pos (total in_global s.threads)
  pub conns : (j : Bytes) → s.counters.conns j ≡ pos (total (in_ip j) s.threads)
  pub within : Respects (total (through_global l) s.threads) l.max_global
  pub within_ip : (j : Bytes) → Respects (total (through_ip l j) s.threads) l.max_per_ip

one_at_most :
    (f : Pc → ℕ) (ts : List Pc) (n : ℕ)
    → length ts ≡ n
    → Small n
    → ((p : Pc) → f p ≤ 1)
    → Small (total f ts)
one_at_most f ts n e s h = omega (arith, total-le-length f ts h)

in_global-le : (p : Pc) → in_global p ≤ 1
in_global-le p = ground arith

in_ip-le : (j : Bytes) (p : Pc) → in_ip j p ≤ 1
in_ip-le j p = ground arith

Step-Counted :
    {l : Limits} (n : ℕ) {s t : System} → Small n → Step l s t → Counted l n s → Counted l n t
Step-Counted {l} n {s} small (pick i {p} {q} {m} at mv) c =
    let ts = set s.threads i q in
    let count = λ (f : Pc → ℕ). total-set f s.threads i p q at in
    let now_global =
      Move-global (total in_global s.threads) (total in_global ts) mv
        (one_at_most in_global s.threads n c.size small in_global-le) c.global (count in_global) in
    let now_conns = λ (j : Bytes).
      Move-conns j (total (in_ip j) s.threads) (total (in_ip j) ts) mv
        (one_at_most (in_ip j) s.threads n c.size small (in_ip-le j)) (c.conns j)
        (count (in_ip j)) in
    record {
      size = length-set s.threads i q ∙ c.size;
      global = now_global;
      conns = now_conns;
      within =
          Move-through_global (total (through_global l) s.threads) (total (through_global l) ts)
            (total in_global ts) mv c.within (count (through_global l)) now_global
            (total-le (through_global l) in_global ts (through_global-le l));
      within_ip = λ j.
          Move-through_ip j (total (through_ip l j) s.threads) (total (through_ip l j) ts)
            (total (in_ip j) ts) mv (c.within_ip j) (count (through_ip l j)) (now_conns j)
            (total-le (through_ip l j) (in_ip j) ts (through_ip-le l j));
    }

Reach-Counted :
    {l : Limits} (n : ℕ) {s t : System} → Small n → Reach l s t → Counted l n s → Counted l n t
Reach-Counted n small start c = c
Reach-Counted n small (later r st) c = Step-Counted n small st (Reach-Counted n small r c)

-- The leases that are out: in all, and those of an IP.
abbrev pub leased : Pc → ℕ
leased unnamed = 1
leased (holding ip) = 1
leased _ = 0

abbrev pub leased_ip : Bytes → Pc → ℕ
leased_ip j (holding ip) = at_ip j ip
leased_ip j _ = 0

leased-le : (l : Limits) (p : Pc) → leased p ≤ through_global l p
leased-le l p = ground arith

leased_ip-le : (l : Limits) (j : Bytes) (p : Pc) → leased_ip j p ≤ through_ip l j p
leased_ip-le l j p = ground arith

-- The goroutines within Acquire or Release that count as well.
abbrev pub midway : Pc → ℕ
midway outside = 0
midway (leaving ip) = 0
midway unnamed = 0
midway (holding ip) = 0
midway _ = 1

abbrev pub midway_ip : Bytes → Pc → ℕ
midway_ip j (counted_ip ip n) = at_ip j ip
midway_ip j (passed ip) = at_ip j ip
midway_ip j (back_ip ip) = at_ip j ip
midway_ip j (leaving ip) = at_ip j ip
midway_ip j _ = 0

leased-midway : (p : Pc) → in_global p ≡ leased p + midway p
leased-midway p = ground arith

leased_ip-midway_ip : (j : Bytes) (p : Pc) → in_ip j p ≡ leased_ip j p + midway_ip j p
leased_ip-midway_ip j p = ground arith

-- At most the configured number of leases is out, in all and for the IP; and each counter is the number
-- of leases and of goroutines on the way to one or from one.
abbrev pub Honoured : Limits → Bytes → System → Type 0
Honoured l j s =
    Respects (total leased s.threads) l.max_global
    × Respects (total (leased_ip j) s.threads) l.max_per_ip
    × (s.counters.global ≡ pos (total leased s.threads + total midway s.threads))
    × (s.counters.conns j ≡ pos (total (leased_ip j) s.threads + total (midway_ip j) s.threads))

Counted-Honoured : (l : Limits) (n : ℕ) (j : Bytes) (s : System) → Counted l n s → Honoured l j s
Counted-Honoured l n j s c = (
  Respects-le (total leased s.threads) (total (through_global l) s.threads) l.max_global
      (total-le leased (through_global l) s.threads (leased-le l)) c.within,
  Respects-le (total (leased_ip j) s.threads) (total (through_ip l j) s.threads) l.max_per_ip
      (total-le (leased_ip j) (through_ip l j) s.threads (leased_ip-le l j)) (c.within_ip j),
  c.global ∙ ap pos (total-sum in_global leased midway s.threads leased-midway),
  c.conns j
      ∙ ap pos (total-sum (in_ip j) (leased_ip j) (midway_ip j) s.threads (leased_ip-midway_ip j)),
)

unfoldable pub idle : ℕ → List Pc
idle zero = []
idle (suc n) = outside ∷ idle n

-- A new limiter and `n` goroutines that have not called it.
abbrev pub fresh : ℕ → System
fresh n = record { counters = record { global = pos 0; conns = λ ip. pos 0 }; threads = idle n }

length-idle : (n : ℕ) → length (idle n) ≡ n
unfolding idle
length-idle zero = refl
length-idle (suc n) = ap suc (length-idle n)

total-idle : (f : Pc → ℕ) (n : ℕ) → f outside ≡ 0 → total f (idle n) ≡ 0
unfolding idle total
total-idle f zero e = refl
total-idle f (suc n) e = omega (arith, total-idle f n e)

Respects-none : (n : ℕ) (max : ℤ) → n ≡ 0 → Respects n max
Respects-none n (pos m) e = inr (omega arith)
Respects-none n (negsuc m) e = inl (omega arith)

fresh-Counted : (l : Limits) (n : ℕ) → Counted l n (fresh n)
fresh-Counted l n = record {
  size = length-idle n;
  global = ap pos (sym (total-idle in_global n refl));
  conns = λ j. ap pos (sym (total-idle (in_ip j) n refl));
  within =
      Respects-none (total (through_global l) (idle n)) l.max_global
        (total-idle (through_global l) n refl);
  within_ip = λ j.
      Respects-none (total (through_ip l j) (idle n)) l.max_per_ip
        (total-idle (through_ip l j) n refl);
}

-- However the atomic steps of fewer than 2 ^ 63 - 1 goroutines in Acquire and Release interleave, from a
-- new limiter on: the leases that are out never pass the global limit, nor those of an IP the limit of
-- each IP, where there is one; and each counter is the number of leases and of goroutines that are on
-- their way in or out, so that it is exact again whenever there are none of these.
pub Reach-Honoured :
    {l : Limits} (n : ℕ) (j : Bytes) {s : System} → Small n → Reach l (fresh n) s → Honoured l j s
Reach-Honoured {l} n j {s} small r =
    Counted-Honoured l n j s (Reach-Counted n small r (fresh-Counted l n))
