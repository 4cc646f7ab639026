-- ===== src/Pool/Limiter/Tokens.antt =====
-- The token buckets of the limiter of pool.go.
use go_multi_warp.Prelude.{
  ℤ, pos, ◌≤ℤ◌, ◌<ℤ◌, ltb_ℤ, ◌≡◌, refl, inl, inr, ◌&&◌, List, [], ◌∷◌, Bytes, bytes_eq, arith, All,
  is_empty, if◌then◌else◌, Bool-cases, Option-cases, get_elem?,
}
use go_multi_warp.Pool.Limiter.{
  ConnLimiter, ConnLease, IpState, admitted, find_ip, put_ip, or_fresh, inc, refilled, take_token,
  acquire_ip, acquire, release, new_conn_limiter,
}
use go_multi_warp.Pool.Limiter.Calls.{Call, acquires, releases, State, serve, serve_all}

-- A bucket holds less than a full second's tokens, and never less than none.
abbrev pub Level : ℤ → ℤ → Type 0
Level max n = (pos 0 ≤ℤ n) × (n <ℤ max)

abbrev pub Levels : ℤ → List (Bytes × IpState) → Type 0
Levels max m = All (λ e. Level max e.1.tokens) m

put_ip-Levels :
    (max : ℤ) (ip : Bytes) (st : IpState) (m : List (Bytes × IpState))
    → Level max st.tokens
    → Levels max m
    → Levels max (put_ip ip st m)
unfolding put_ip
put_ip-Levels max ip st [] h a = (h, tt)
put_ip-Levels max ip st ((k, old) ∷ m) h a = elim (Bool-cases (bytes_eq k ip)) [
  | inl e ↦ rw (e, if◌then◌else◌) (h, a.1)
  | inr e ↦ rw (e, if◌then◌else◌) (a.0, put_ip-Levels max ip st m h a.1)
]

find_ip-Level :
    (max : ℤ) (ip : Bytes) (m : List (Bytes × IpState))
    → pos 0 <ℤ max
    → Levels max m
    → Level max (or_fresh (find_ip ip m)).tokens
unfolding find_ip
find_ip-Level max ip [] h a = (omega arith, h)
find_ip-Level max ip ((k, st) ∷ m) h a = elim (Bool-cases (bytes_eq k ip)) [
  | inl e ↦ rw (e, if◌then◌else◌) a.0
  | inr e ↦ rw (e, if◌then◌else◌) (find_ip-Level max ip m h a.1)
]

-- The limiter keeps its rate and its buckets' levels.
abbrev pub Filled : ℤ → ConnLimiter → Type 0
Filled max l = (l.max_rps ≡ max) × Levels max l.per_ip

take_token-Filled :
    (refill : ℤ → ℤ → ℤ) (now max : ℤ) (ip : Bytes) (st : IpState) (l : ConnLimiter)
    → Level max st.tokens
    → Filled max l
    → Filled max (take_token refill now ip st l).0
unfolding take_token
take_token-Filled refill now max ip st l h f =
    elim (Bool-cases (ltb_ℤ (refilled refill now l.max_rps st) (pos 1))) [
      | inl t ↦ rw (t, if◌then◌else◌) (f.0, put_ip-Levels max ip _ l.per_ip h f.1)
      | inr t ↦ rw (t, if◌then◌else◌) (f.0, put_ip-Levels max ip _ l.per_ip (ground arith) f.1)
    ]

acquire_ip-Filled :
    (refill : ℤ → ℤ → ℤ) (now max : ℤ) (ip : Bytes) (st : IpState) (l : ConnLimiter)
    → Level max st.tokens
    → Filled max l
    → Filled max (acquire_ip refill now ip st l).0
unfolding acquire_ip
acquire_ip-Filled refill now max ip st l h f =
    elim (Bool-cases (ltb_ℤ (pos 0) l.max_per_ip && ltb_ℤ l.max_per_ip (inc st.conns))) [
      | inl t ↦ rw (t, if◌then◌else◌) (f.0, put_ip-Levels max ip _ l.per_ip h f.1)
      | inr t ↦ elim (Bool-cases (ltb_ℤ (pos 0) l.max_rps)) [
        | inl r ↦
            rw (t, if◌then◌else◌, r, if◌then◌else◌)
              (take_token-Filled refill now max ip (record st { conns = inc st.conns }) l h f)
        | inr r ↦
            rw (t, if◌then◌else◌, r, if◌then◌else◌) (f.0, put_ip-Levels max ip _ l.per_ip h f.1)
      ]
    ]

acquire-Filled :
    (refill : ℤ → ℤ → ℤ) (now max : ℤ) (ip : Bytes) (l : ConnLimiter)
    → pos 0 <ℤ max
    → Filled max l
    → Filled max (acquire refill now ip l).0
unfolding acquire
acquire-Filled refill now max ip l h f =
    let up : ConnLimiter = record l { global = inc l.global } in
    elim (Bool-cases (ltb_ℤ (pos 0) l.max_global && ltb_ℤ l.max_global (inc l.global))) [
      | inl t ↦ rw (t, if◌then◌else◌) f
      | inr t ↦ elim (Bool-cases (is_empty ip)) [
        | inl e ↦ rw (t, if◌then◌else◌, e, if◌then◌else◌) f
        | inr e ↦
            rw (t, if◌then◌else◌, e, if◌then◌else◌)
              (acquire_ip-Filled refill now max ip (or_fresh (find_ip ip l.per_ip)) up
                (find_ip-Level max ip l.per_ip h f.1) f)
      ]
    ]

release-Filled :
    (max : ℤ) (c : ConnLease) (l : ConnLimiter)
    → pos 0 <ℤ max
    → Filled max l
    → Filled max (release c l)
unfolding release
release-Filled max c l h f = elim (Bool-cases (is_empty c.ip)) [
  | inl e ↦ rw (e, if◌then◌else◌) f
  | inr e ↦ elim (Option-cases (find_ip c.ip l.per_ip)) [
    | inl n ↦ rw (e, if◌then◌else◌, n) f
    | inr (st, s) ↦
        rw (e, if◌then◌else◌, s)
          (
            f.0,
            put_ip-Levels max c.ip _ l.per_ip
                (ground (arith, find_ip-Level max c.ip l.per_ip h f.1)) f.1,
          )
  ]
]

serve-Filled :
    (refill : ℤ → ℤ → ℤ) (max : ℤ) (c : Call) (s : State)
    → pos 0 <ℤ max
    → Filled max s.0
    → Filled max (serve refill c s).0
unfolding serve
serve-Filled refill max (acquires now ip) (l, held) h f = acquire-Filled refill now max ip l h f
serve-Filled refill max (releases k) (l, held) h f = elim (Option-cases (get_elem? held k)) [
  | inl e ↦ rw e f
  | inr (ip, e) ↦ rw e (release-Filled max (record { ip = ip }) l h f)
]

serve_all-from :
    (refill : ℤ → ℤ → ℤ) (max : ℤ) (cs : List Call) (s : State)
    → pos 0 <ℤ max
    → Filled max s.0
    → Filled max (serve_all refill cs s).0
unfolding serve_all
serve_all-from refill max [] s h f = f
serve_all-from refill max (c ∷ cs) s h f =
    serve_all-from refill max cs (serve refill c s) h (serve-Filled refill max c s h f)

-- With a rate limit, every bucket stays at 0 or more and below the tokens of one second, after any
-- calls and however the buckets are filled: a bucket never owes or hoards tokens.
pub serve_all-Levels :
    (refill : ℤ → ℤ → ℤ) (max_global max_per_ip max_rps : ℤ) (cs : List Call)
    → pos 0 <ℤ max_rps
    → Levels max_rps
        (serve_all refill cs (new_conn_limiter max_global max_per_ip max_rps, [])).0.per_ip
unfolding new_conn_limiter
serve_all-Levels refill max_global max_per_ip max_rps cs h =
    (serve_all-from refill max_rps cs (new_conn_limiter max_global max_per_ip max_rps, []) h
      (refl, tt)).1

-- A limit of 0 is no limit: with none set, no peer is ever rejected.
acquire_unlimited :
    (refill : ℤ → ℤ → ℤ) (now : ℤ) (ip : Bytes) (l : ConnLimiter)
    → l.max_global ≤ℤ pos 0
    → l.max_per_ip ≤ℤ pos 0
    → l.max_rps ≤ℤ pos 0
    → (acquire refill now ip l).1 ≡ admitted (record { ip = ip })
unfolding acquire acquire_ip
acquire_unlimited refill now [] l g i r = ground arith
acquire_unlimited refill now (c ∷ ip) l g i r = ground arith
