-- ===== src/Pool/Limiter/Race.antt =====
-- internal/pool/pool.go: Acquire and Release of ConnLimiter by many goroutines at once. Each step is one
-- atomic addition or one test of a local value; they interleave in any order. An IP that has no entry in
-- the map counts as one with zero. The bucket, which a mutex guards, may refuse at any time.
pub mod Moves
pub mod Bounded
use go_multi_warp.Prelude.{
  ℕ, ◌<◌, ℤ, pos, ltb_ℤ, Bool, true, false, ◌&&◌, ◌≡◌, List, some, Bytes, bytes_eq, is_empty,
  get_elem?, set, if◌then◌else◌,
}
use go_multi_warp.Pool.Limiter.{inc, dec}

pub record Limits : Type 0 where
  pub max_global : ℤ
  pub max_per_ip : ℤ
  pub max_rps : ℤ

pub record Counters : Type 0 where
  pub global : ℤ
  pub conns : Bytes → ℤ

-- Where a goroutine is, with what it has read. `unnamed` and `holding` have a lease, the first one
-- for a peer with no IP.
pub data Pc : Type 0 where
  outside back unnamed : Pc
  counted counted_ip : Bytes → ℤ → Pc
  named passed back_ip holding leaving : Bytes → Pc

abbrev pub update : (Bytes → ℤ) → Bytes → ℤ → Bytes → ℤ
update f ip n k = if bytes_eq ip k then n else f k

-- cl.max > 0 && n > cl.max
abbrev pub is_over : ℤ → ℤ → Bool
is_over max n = ltb_ℤ (pos 0) max && ltb_ℤ max n

pub data Move (l : Limits) (m : Counters) : Pc → Counters → Pc → Type 0 where
  arrive :
      (ip : Bytes)
      → Move l m outside (record m { global = inc m.global }) (counted ip (inc m.global))
  refuse_global :
      {ip : Bytes} {g : ℤ} → is_over l.max_global g ≡ true → Move l m (counted ip g) m back
  admit_unnamed :
      {ip : Bytes} {g : ℤ}
      → is_over l.max_global g ≡ false
      → is_empty ip ≡ true
      → Move l m (counted ip g) m unnamed
  pass_global :
      {ip : Bytes} {g : ℤ}
      → is_over l.max_global g ≡ false
      → is_empty ip ≡ false
      → Move l m (counted ip g) m (named ip)
  count_ip :
      {ip : Bytes}
      → Move l m
          (named ip)
          (record m { conns = update m.conns ip (inc (m.conns ip)) })
          (counted_ip ip (inc (m.conns ip)))
  refuse_ip :
      {ip : Bytes} {n : ℤ}
      → is_over l.max_per_ip n ≡ true
      → Move l m (counted_ip ip n) m (back_ip ip)
  pass_ip :
      {ip : Bytes} {n : ℤ}
      → is_over l.max_per_ip n ≡ false
      → Move l m (counted_ip ip n) m (passed ip)
  refuse_token : {ip : Bytes} → ltb_ℤ (pos 0) l.max_rps ≡ true → Move l m (passed ip) m (back_ip ip)
  admit : {ip : Bytes} → Move l m (passed ip) m (holding ip)
  drop_ip :
      {ip : Bytes}
      → Move l m (back_ip ip) (record m { conns = update m.conns ip (dec (m.conns ip)) }) back
  drop : Move l m back (record m { global = dec m.global }) outside
  leave : {ip : Bytes} → Move l m (holding ip) (record m { global = dec m.global }) (leaving ip)
  leave_ip :
      {ip : Bytes}
      → Move l m (leaving ip) (record m { conns = update m.conns ip (dec (m.conns ip)) }) outside
  leave_unnamed : Move l m unnamed (record m { global = dec m.global }) outside

pub record System : Type 0 where
  pub counters : Counters
  pub threads : List Pc

pub data Step (l : Limits) (s : System) : System → Type 0 where
  pick :
      (i : ℕ) {p q : Pc} {m : Counters}
      → get_elem? s.threads i ≡ some p
      → Move l s.counters p m q
      → Step l s (record { counters = m; threads = set s.threads i q })

-- What comes about from `s`.
pub data Reach (l : Limits) (s : System) : System → Type 0 where
  start : Reach l s s
  later : {t u : System} → Reach l s t → Step l t u → Reach l s u
