-- ===== src/Pool/Limiter/Effects.antt =====
-- What one Acquire of the limiter of pool.go does to the counts.
use go_multi_warp.Prelude.{
  ℕ, suc, ◌<◌, ℤ, pos, negsuc, ◌≤ℤ◌, ◌+ℤ◌, ltb_ℤ, to_int64_id, ◌≡◌, refl, sym, ap, ◌∙◌, ◌⊎◌, inl,
  inr, true, false, ◌&&◌, [], ◌∷◌, Bytes, bytes_eq, bytes_eq_iff, arith, is_empty, if◌then◌else◌,
  Bool-cases,
}
use go_multi_warp.Pool.Limiter.{
  ConnLimiter, IpState, Acquired, admitted, rejected, put_ip, inc, dec, refilled, take_token,
  acquire_ip, acquire,
}
use go_multi_warp.Pool.Limiter.Counts.{state_of, state_of-put_ip}

abbrev pub conns_of : Bytes → ConnLimiter → ℤ
conns_of ip l = (state_of ip l.per_ip).conns

-- Below the largest int64: such counts go up and down by one without wrapping.
abbrev pub Small : ℕ → Type 0
Small n = n < 0x7fffffffffffffff

pub inc_pos : (n : ℕ) → Small n → inc (pos n) ≡ pos (suc n)
inc_pos n h = to_int64_id (pos n +ℤ pos 1) (ground arith) ∙ (ground arith)

pub dec-suc : (n : ℕ) → Small n → dec (pos (suc n)) ≡ pos n
dec-suc n h = to_int64_id (pos (suc n) +ℤ negsuc 0) (ground arith) ∙ (ground arith)

-- The limits do not change.
abbrev pub SameLimits : ConnLimiter → ConnLimiter → Type 0
SameLimits l m =
    (m.max_global ≡ l.max_global) × (m.max_per_ip ≡ l.max_per_ip) × (m.max_rps ≡ l.max_rps)

-- A limit of 0 or less is none.
abbrev pub Respects : ℕ → ℤ → Type 0
Respects n max = (max ≤ℤ pos 0) ⊎ (pos n ≤ℤ max)

-- An update of one entry's count, seen from every IP.
conns_of-put_ip :
    (ip j : Bytes) (st : IpState) (l : ConnLimiter)
    → (state_of j (put_ip ip st l.per_ip)).conns
      ≡ (if bytes_eq ip j then st.conns else conns_of j l)
conns_of-put_ip ip j st l = rw (state_of-put_ip ip j st l.per_ip) (ground arith)

-- Putting back the count that an IP has changes no count.
conns_of-put_back :
    (ip j : Bytes) (st : IpState) (l : ConnLimiter)
    → st.conns ≡ conns_of ip l
    → (state_of j (put_ip ip st l.per_ip)).conns ≡ conns_of j l
conns_of-put_back ip j st l e = elim (Bool-cases (bytes_eq ip j)) [
  | inl s ↦
      let same = (bytes_eq_iff ip j).0 s in
      conns_of-put_ip ip j st l ∙ rw (s, if◌then◌else◌) (e ∙ ap (λ k. conns_of k l) same)
  | inr d ↦ conns_of-put_ip ip j st l ∙ rw (d, if◌then◌else◌)
]

-- What an Acquire for a named IP comes to, with `g` leases out of which `n` are the IP's.
abbrev IpEffect : ConnLimiter → Bytes → ℕ → ℕ → ConnLimiter × Acquired → Type 0
IpEffect l ip g n (m, rejected e) =
    (m.global ≡ pos g) × SameLimits l m × ((j : Bytes) → conns_of j m ≡ conns_of j l)
IpEffect l ip g n (m, admitted c) =
    (m.global ≡ pos (suc g))
    × SameLimits l m
    × ((j : Bytes) → conns_of j m ≡ (if bytes_eq ip j then pos (suc n) else conns_of j l))
    × (c.ip ≡ ip)
    × Respects (suc n) l.max_per_ip

limit_kept :
    (k : ℕ) (c max : ℤ) → (ltb_ℤ (pos 0) max && ltb_ℤ max c) ≡ false → c ≡ pos k → Respects k max
limit_kept k c max t e = ground arith

-- Putting in a count that is known.
pub conns_of-put_known :
    (ip j : Bytes) (st : IpState) (l : ConnLimiter) (c : ℤ)
    → st.conns ≡ c
    → (state_of j (put_ip ip st l.per_ip)).conns ≡ (if bytes_eq ip j then c else conns_of j l)
conns_of-put_known ip j st l c e =
    conns_of-put_ip ip j st l ∙ ap (λ x. if bytes_eq ip j then x else conns_of j l) e

take_token-IpEffect :
    (refill : ℤ → ℤ → ℤ) (now : ℤ) (ip : Bytes) (st : IpState) (l : ConnLimiter) (g n : ℕ)
    → dec l.global ≡ pos g
    → l.global ≡ pos (suc g)
    → st.conns ≡ pos (suc n)
    → dec st.conns ≡ conns_of ip l
    → Respects (suc n) l.max_per_ip
    → IpEffect l ip g n (take_token refill now ip st l)
unfolding take_token
take_token-IpEffect refill now ip st l g n gdown up_g up down limit =
    elim (Bool-cases (ltb_ℤ (refilled refill now l.max_rps st) (pos 1))) [
      | inl t ↦
          rw (t, if◌then◌else◌)
            (
              gdown,
              (refl, refl, refl),
              λ j. conns_of-put_back ip j (record st { conns = dec st.conns }) l down,
            )
      | inr t ↦
          rw (t, if◌then◌else◌)
            (
              up_g,
              (refl, refl, refl),
              λ j. conns_of-put_known ip j _ l (pos (suc n)) up,
              refl,
              limit,
            )
    ]

acquire_ip-IpEffect :
    (refill : ℤ → ℤ → ℤ) (now : ℤ) (ip : Bytes) (l : ConnLimiter) (g n : ℕ)
    → Small g
    → Small n
    → l.global ≡ pos (suc g)
    → conns_of ip l ≡ pos n
    → IpEffect l ip g n (acquire_ip refill now ip (state_of ip l.per_ip) l)
unfolding acquire_ip
acquire_ip-IpEffect refill now ip l g n sg sn eg en =
    let st : IpState = record (state_of ip l.per_ip) { conns = inc (conns_of ip l) } in
    let up : inc (conns_of ip l) ≡ pos (suc n) = ap inc en ∙ inc_pos n sn in
    let down : dec (inc (conns_of ip l)) ≡ conns_of ip l = ap dec up ∙ dec-suc n sn ∙ sym en in
    let gdown : dec l.global ≡ pos g = ap dec eg ∙ dec-suc g sg in
    elim (Bool-cases (ltb_ℤ (pos 0) l.max_per_ip && ltb_ℤ l.max_per_ip (inc (conns_of ip l)))) [
      | inl t ↦
          rw (t, if◌then◌else◌)
            (
              gdown,
              (refl, refl, refl),
              λ j. conns_of-put_back ip j (record st { conns = dec (inc (conns_of ip l)) }) l down,
            )
      | inr t ↦
          let limit = limit_kept (suc n) (inc (conns_of ip l)) l.max_per_ip t up in
          elim (Bool-cases (ltb_ℤ (pos 0) l.max_rps)) [
            | inl r ↦
                rw (t, if◌then◌else◌, r, if◌then◌else◌)
                  (take_token-IpEffect refill now ip st l g n gdown eg up down limit)
            | inr r ↦
                rw (t, if◌then◌else◌, r, if◌then◌else◌)
                  (
                    eg,
                    (refl, refl, refl),
                    λ j. conns_of-put_known ip j st l (pos (suc n)) up,
                    refl,
                    limit,
                  )
          ]
    ]

-- What an Acquire comes to, with `g` leases out of which `n` are the IP's. An unnamed peer counts
-- globally only.
abbrev pub Effect : ConnLimiter → Bytes → ℕ → ℕ → ConnLimiter × Acquired → Type 0
Effect l ip g n (m, rejected e) =
    (m.global ≡ pos g) × SameLimits l m × ((j : Bytes) → conns_of j m ≡ conns_of j l)
Effect l ip g n (m, admitted c) =
    (m.global ≡ pos (suc g))
    × SameLimits l m
    × (c.ip ≡ ip)
    × Respects (suc g) l.max_global
    × (((is_empty ip ≡ true) × ((j : Bytes) → conns_of j m ≡ conns_of j l))
        ⊎ ((is_empty ip ≡ false)
            × ((j : Bytes) → conns_of j m ≡ (if bytes_eq ip j then pos (suc n) else conns_of j l))
            × Respects (suc n) l.max_per_ip))

pub empty_bytes : (xs : Bytes) → is_empty xs ≡ true → xs ≡ []
empty_bytes [] h = refl
empty_bytes (x ∷ xs) h = cc

ip-Effect :
    (l : ConnLimiter) (ip : Bytes) (g n : ℕ) (r : ConnLimiter × Acquired)
    → is_empty ip ≡ false
    → Respects (suc g) l.max_global
    → IpEffect (record l { global = inc l.global }) ip g n r
    → Effect l ip g n r
ip-Effect l ip g n (m, rejected e) named limit (a, b, c) = (a, b, c)
ip-Effect l ip g n (m, admitted c) named limit (a, b, d, e, f) = (a, b, e, limit, inr (named, d, f))

-- An Acquire either takes one place globally and one for its IP, each within its limit, or it is
-- rejected and leaves every count as it was.
pub acquire-Effect :
    (refill : ℤ → ℤ → ℤ) (now : ℤ) (ip : Bytes) (l : ConnLimiter) (g n : ℕ)
    → Small g
    → Small n
    → l.global ≡ pos g
    → (is_empty ip ≡ true) ⊎ (conns_of ip l ≡ pos n)
    → Effect l ip g n (acquire refill now ip l)
unfolding acquire
acquire-Effect refill now ip l g n sg sn eg en =
    let up : inc l.global ≡ pos (suc g) = ap inc eg ∙ inc_pos g sg in
    let down : dec (inc l.global) ≡ pos g = ap dec up ∙ dec-suc g sg in
    elim (Bool-cases (ltb_ℤ (pos 0) l.max_global && ltb_ℤ l.max_global (inc l.global))) [
      | inl t ↦ rw (t, if◌then◌else◌) (down, (refl, refl, refl), λ j. refl)
      | inr t ↦
          let limit = limit_kept (suc g) (inc l.global) l.max_global t up in
          elim (Bool-cases (is_empty ip)) [
            | inl e ↦
                rw (t, if◌then◌else◌, e, if◌then◌else◌)
                  (up, (refl, refl, refl), sym (empty_bytes ip e), limit, inl (e, λ j. refl))
            | inr e ↦
                rw (t, if◌then◌else◌, e, if◌then◌else◌)
                  (ip-Effect l ip g n _ e limit (
                    acquire_ip-IpEffect refill now ip (record l { global = inc l.global }) g n sg sn
                      up (ground arith)))
          ]
    ]
