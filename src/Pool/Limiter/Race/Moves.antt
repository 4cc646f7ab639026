-- ===== src/Pool/Limiter/Race/Moves.antt =====
-- What one step of a goroutine does to the counters of the limiter and to the counts of goroutines.
use go_multi_warp.Prelude.{
  ℕ, suc, ◌+◌, ◌≤◌, ℤ, pos, ltb_ℤ, false, ◌≡◌, sym, ap, ◌∙◌, inl, inr, Bytes, bytes_eq,
  bytes_eq_iff, arith, if◌then◌else◌, Bool-cases,
}
use go_multi_warp.Pool.Limiter.{inc, dec}
use go_multi_warp.Pool.Limiter.Effects.{Small, inc_pos, dec-suc, Respects}
use go_multi_warp.Pool.Limiter.Race.{
  Limits, Counters, Pc, outside, back, counted, counted_ip, passed, back_ip, holding, leaving,
  update, is_over, Move, arrive, refuse_global, admit_unnamed, pass_global, count_ip, refuse_ip,
  pass_ip, drop_ip, drop, leave, leave_unnamed, leave_ip,
}

-- 1 for a goroutine that counts in `global`.
abbrev pub in_global : Pc → ℕ
in_global outside = 0
in_global (leaving ip) = 0
in_global _ = 1

abbrev pub at_ip : Bytes → Bytes → ℕ
at_ip j ip = if bytes_eq ip j then 1 else 0

-- 1 for a goroutine that counts in `conns` of the IP.
abbrev pub in_ip : Bytes → Pc → ℕ
in_ip j (counted_ip ip n) = at_ip j ip
in_ip j (passed ip) = at_ip j ip
in_ip j (back_ip ip) = at_ip j ip
in_ip j (holding ip) = at_ip j ip
in_ip j (leaving ip) = at_ip j ip
in_ip j _ = 0

-- 1 for a goroutine that the global limit lets through.
abbrev pub through_global : Limits → Pc → ℕ
through_global l (counted ip g) = if is_over l.max_global g then 0 else 1
through_global l back = 0
through_global l outside = 0
through_global l (leaving ip) = 0
through_global l _ = 1

-- 1 for a goroutine that the limit of the IP lets through.
abbrev pub through_ip : Limits → Bytes → Pc → ℕ
through_ip l j (counted_ip ip n) = if is_over l.max_per_ip n then 0 else at_ip j ip
through_ip l j (passed ip) = at_ip j ip
through_ip l j (holding ip) = at_ip j ip
through_ip l j _ = 0

pub through_global-le : (l : Limits) (p : Pc) → through_global l p ≤ in_global p
through_global-le l p = ground arith

pub through_ip-le : (l : Limits) (j : Bytes) (p : Pc) → through_ip l j p ≤ in_ip j p
through_ip-le l j p = ground arith

is_over-Respects : (max : ℤ) (n : ℕ) → is_over max (pos n) ≡ false → Respects n max
is_over-Respects max n h = elim (Bool-cases (ltb_ℤ (pos 0) max)) [
  | inl t ↦ inr (ground arith)
  | inr f ↦ inl (ground arith)
]

pub Respects-le : (m n : ℕ) (max : ℤ) → m ≤ n → Respects n max → Respects m max
Respects-le m n max h (inl z) = inl z
Respects-le m n max h (inr b) = inr (omega arith)

up : (g : ℤ) (k k' : ℕ) → Small k → g ≡ pos k → k' ≡ suc k → inc g ≡ pos k'
up g k k' s e h = ap inc e ∙ inc_pos k s ∙ ap pos (sym h)

down : (g : ℤ) (k k' : ℕ) → Small k → g ≡ pos k → k ≡ suc k' → dec g ≡ pos k'
down g k k' s e h = ap dec (e ∙ ap pos h) ∙ dec-suc k' (omega arith)

pub Move-global :
    {l : Limits} {m m' : Counters} {p q : Pc} (k k' : ℕ)
    → Move l m p m' q
    → Small k
    → m.global ≡ pos k
    → k' + in_global p ≡ k + in_global q
    → m'.global ≡ pos k'
Move-global {m} k k' (arrive ip) s e h = up m.global k k' s e (omega arith)
Move-global {m} k k' drop s e h = down m.global k k' s e (omega arith)
Move-global {m} k k' leave s e h = down m.global k k' s e (omega arith)
Move-global {m} k k' leave_unnamed s e h = down m.global k k' s e (omega arith)
Move-global k k' _ s e h = e ∙ ap pos (omega arith)

at_update :
    (f : Bytes → ℤ) (ip j : Bytes) (n : ℤ) (k : ℕ)
    → (at_ip j ip ≡ 1 → n ≡ pos k)
    → (at_ip j ip ≡ 0 → f j ≡ pos k)
    → update f ip n j ≡ pos k
at_update f ip j n k one none = elim (Bool-cases (bytes_eq ip j)) [
  | inl t ↦ rw t (one (ground arith))
  | inr t ↦ rw t (none (ground arith))
]

-- Counting at one IP, seen from the IP `j`.
conns_up :
    (f : Bytes → ℤ) (ip j : Bytes) (k k' : ℕ)
    → Small k
    → f j ≡ pos k
    → k' ≡ k + at_ip j ip
    → update f ip (inc (f ip)) j ≡ pos k'
conns_up f ip j k k' s e h =
    at_update f ip j (inc (f ip)) k'
      (λ one. up (f ip) k k' s (ap f ((bytes_eq_iff ip j).0 (ground arith)) ∙ e) (omega arith))
      (λ none. e ∙ ap pos (omega arith))

conns_down :
    (f : Bytes → ℤ) (ip j : Bytes) (k k' : ℕ)
    → Small k
    → f j ≡ pos k
    → k ≡ k' + at_ip j ip
    → update f ip (dec (f ip)) j ≡ pos k'
conns_down f ip j k k' s e h =
    at_update f ip j (dec (f ip)) k'
      (λ one. down (f ip) k k' s (ap f ((bytes_eq_iff ip j).0 (ground arith)) ∙ e) (omega arith))
      (λ none. e ∙ ap pos (omega arith))

pub Move-conns :
    {l : Limits} {m m' : Counters} {p q : Pc} (j : Bytes) (k k' : ℕ)
    → Move l m p m' q
    → Small k
    → m.conns j ≡ pos k
    → k' + in_ip j p ≡ k + in_ip j q
    → m'.conns j ≡ pos k'
Move-conns {m} j k k' (count_ip {ip}) s e h = conns_up m.conns ip j k k' s e (omega arith)
Move-conns {m} j k k' (drop_ip {ip}) s e h = conns_down m.conns ip j k k' s e (omega arith)
Move-conns {m} j k k' (leave_ip {ip}) s e h = conns_down m.conns ip j k k' s e (omega arith)
Move-conns j k k' _ s e h = e ∙ ap pos (omega arith)

-- A goroutine that gets through read a count that is not over the limit, and counts all that are.
pub Move-through_global :
    {l : Limits} {m m' : Counters} {p q : Pc} (k k' n : ℕ)
    → Move l m p m' q
    → Respects k l.max_global
    → k' + through_global l p ≡ k + through_global l q
    → m'.global ≡ pos n
    → k' ≤ n
    → Respects k' l.max_global
Move-through_global {l} {m} k k' n (arrive ip) r h e b =
    elim (Bool-cases (is_over l.max_global (inc m.global))) [
      | inl t ↦ Respects-le k' k l.max_global (ground arith) r
      | inr t ↦
          let free : is_over l.max_global (pos n) ≡ false = ap (is_over l.max_global) (sym e) ∙ t in
          Respects-le k' n l.max_global b (is_over-Respects l.max_global n free)
    ]
Move-through_global {l} k k' n (refuse_global t) r h e b =
    Respects-le k' k l.max_global (omega arith) r
Move-through_global {l} k k' n (admit_unnamed t u) r h e b =
    Respects-le k' k l.max_global (ground arith) r
Move-through_global {l} k k' n (pass_global t u) r h e b =
    Respects-le k' k l.max_global (ground arith) r
Move-through_global {l} k k' n mv r h e b = Respects-le k' k l.max_global (omega arith) r

pub Move-through_ip :
    {l : Limits} {m m' : Counters} {p q : Pc} (j : Bytes) (k k' n : ℕ)
    → Move l m p m' q
    → Respects k l.max_per_ip
    → k' + through_ip l j p ≡ k + through_ip l j q
    → m'.conns j ≡ pos n
    → k' ≤ n
    → Respects k' l.max_per_ip
Move-through_ip {l} {m} j k k' n (count_ip {ip}) r h e b = elim (Bool-cases (bytes_eq ip j)) [
  | inl same ↦
      let read : inc (m.conns ip) ≡ pos n = rw same at e in
      elim (Bool-cases (is_over l.max_per_ip (inc (m.conns ip)))) [
        | inl t ↦ Respects-le k' k l.max_per_ip (ground arith) r
        | inr t ↦
            let free : is_over l.max_per_ip (pos n) ≡ false =
              ap (is_over l.max_per_ip) (sym read) ∙ t in
            Respects-le k' n l.max_per_ip b (is_over-Respects l.max_per_ip n free)
      ]
  | inr other ↦ Respects-le k' k l.max_per_ip (ground arith) r
]
Move-through_ip {l} j k k' n (refuse_ip t) r h e b = Respects-le k' k l.max_per_ip (ground arith) r
Move-through_ip {l} j k k' n (pass_ip t) r h e b = Respects-le k' k l.max_per_ip (ground arith) r
Move-through_ip {l} j k k' n mv r h e b = Respects-le k' k l.max_per_ip (ground arith) r
