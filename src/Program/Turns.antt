-- ===== src/Program/Turns.antt =====
-- How far a session of the listeners moves the round-robin counter: by one for each attempt to dial.
use go_multi_warp.Prelude.{
  ℕ, zero, suc, ◌+◌, ◌≤◌, ℤ, ◌≡◌, refl, Bool, true, false, Option, none, some, Bytes, codes, arith,
  get_elem?, if◌then◌else◌,
}
use go_multi_warp.Pool.Registry.{Pool, lease_success, lease_failure, lease_release}
use go_multi_warp.Pool.Select.{Outcome, panic, done, ◌>>=◌, Selection, lease, refused, select}
use go_multi_warp.Pool.Select.Counter.{select-rr}
use go_multi_warp.Pool.Limiter.{ConnLimiter, ConnLease, Acquired, admitted, rejected, acquire}
use go_multi_warp.Proxy.Dial.{
  Dialler, Dialled, connected, no_backend, dial_loop, dial_via_socks, addr_at,
}
use go_multi_warp.Proxy.Wire.{Wire, Ended, failed, returned, send}
use go_multi_warp.Proxy.Socks5.{Ips, Refusal, hang_up, reply, handshake, is_passed}
use go_multi_warp.Proxy.Auth.{check_http_header}
use go_multi_warp.Proxy.Serve.{
  ProxyState, Outside, after_dial, dial_session, give_up, after_handshake, with_lease, reject_reply,
  handle_socks5,
}
use go_multi_warp.Proxy.Http.{
  Request, Parsers, dial_target, after_read, handle_connect, handle_plain, handle_http, reply_407,
  reply_502,
}

-- The counter is at most `k` after it.
abbrev Within : ℕ → Outcome (ProxyState × Wire) → Type 0
Within k (done (st, w)) = st.pool.rr ≤ k
Within k panic = Unit {0}

abbrev Dials : ℕ → Outcome (Pool × Dialled) → Type 0
Dials k (done (q, o)) = q.rr ≤ k
Dials k panic = Unit {0}

Dials-le : (j k : ℕ) (r : Outcome (Pool × Dialled)) → j ≤ k → Dials j r → Dials k r
Dials-le j k (done (q, o)) l h = omega arith
Dials-le j k panic l h = tt

-- What follows a lease of Select.
connect-Dials :
    (d : Dialler) (key n k i m : ℕ) (q : Pool)
    → q.rr + n ≤ m
    → ((e : Bytes) (t : Pool) → Dials (t.rr + n) (dial_loop d key n (suc k) (some e) t))
    → (o : Option Bytes)
    → Dials m (elim o [
      | none ↦ done (lease_success (d.dialled_at k) i q, connected i)
      | some e ↦
          dial_loop d key n
            (suc k)
            (some e)
            (lease_release i (lease_failure (d.dialled_at k) e i q))
    ])
unfolding lease_success lease_release lease_failure
connect-Dials d key n k i m q l rest none = omega arith
connect-Dials d key n k i m q l rest (some e) =
    Dials-le (q.rr + n) m _ l (rest e (lease_release i (lease_failure (d.dialled_at k) e i q)))

-- The rest of an attempt, once Select has answered.
attempt-Dials :
    (d : Dialler) (key n k : ℕ) (last : Option Bytes) (p : Pool) (r : Outcome (Pool × Selection))
    → select (d.selected_at k) key p ≡ r
    → ((e : Bytes) (t : Pool) → Dials (t.rr + n) (dial_loop d key n (suc k) (some e) t))
    → Dials (p.rr + suc n) (dial_loop d key (suc n) k last p)
unfolding dial_loop
attempt-Dials d key n k last p panic e rest = rw e tt
attempt-Dials d key n k last p (done (q, refused x)) e rest =
    let bound = select-rr (d.selected_at k) key p q (refused x) e in rw e (omega arith)
attempt-Dials d key n k last p (done (q, lease i)) e rest =
    let bound = select-rr (d.selected_at k) key p q (lease i) e in
    rw e (
      connect-Dials d key n k i (p.rr + suc n) q (omega arith) rest
        (d.connect k (addr_at (get_elem? q.backends i))))

dial_loop-Dials :
    (d : Dialler) (key n k : ℕ) (last : Option Bytes) (p : Pool)
    → Dials (p.rr + n) (dial_loop d key n k last p)
unfolding dial_loop
dial_loop-Dials d key zero k last p = omega arith
dial_loop-Dials d key (suc n) k last p =
    attempt-Dials d key n k last p (select (d.selected_at k) key p) refl
      (λ e t. dial_loop-Dials d key n (suc k) (some e) t)

after_dial-Within :
    (m : ℕ) (tunnel : Wire → Wire) (complain : Bytes → Wire → Wire) (c : ConnLease) (w : Wire)
    (st : ProxyState) (r : Outcome (Pool × Dialled))
    → Dials m r
    → Within m (r >>= after_dial tunnel complain c w st)
unfolding lease_release
after_dial-Within m tunnel complain c w st panic h = tt
after_dial-Within m tunnel complain c w st (done (q, connected i)) h = h
after_dial-Within m tunnel complain c w st (done (q, no_backend)) h = h
after_dial-Within m tunnel complain c w st (done (q, Dialled.failed (some e))) h = h
after_dial-Within m tunnel complain c w st (done (q, Dialled.failed none)) h = tt

dial_session-Within :
    (d : Dialler) (key : ℕ) (tunnel : Wire → Wire) (complain : Bytes → Wire → Wire) (c : ConnLease)
    (w : Wire) (st : ProxyState)
    → Within (st.pool.rr + 3) (dial_session d key tunnel complain c w st)
unfolding dial_session dial_via_socks
dial_session-Within d key tunnel complain c w st =
    after_dial-Within (st.pool.rr + 3) tunnel complain c w st (dial_loop d key 3 0 none st.pool)
      (dial_loop-Dials d key 3 0 none st.pool)

after_handshake-Within :
    (out : Outside) (key : ℕ) (c : ConnLease) (st : ProxyState)
    (r : Ended Refusal (Bytes × ℕ) × Wire)
    → Within (st.pool.rr + 3) (after_handshake out key c st r)
after_handshake-Within out key c st (failed hang_up, w) = omega arith
after_handshake-Within out key c st (failed (reply code), w) = omega arith
after_handshake-Within out key c st (returned (host, port), w) =
    dial_session-Within _ key _ _ c w st

with_lease-Within :
    (refuse : Wire → Wire) (next : ConnLease → ProxyState → Outcome (ProxyState × Wire)) (w : Wire)
    (st : ProxyState) (x : ConnLimiter × Acquired)
    → ((c : ConnLease) → Within (st.pool.rr + 3) (next c (record st { limiter = x.0 })))
    → Within (st.pool.rr + 3) (with_lease refuse next w st x)
with_lease-Within refuse next w st (l, rejected e) h = omega arith
with_lease-Within refuse next w st (l, admitted c) h = h c

-- Out of the predicate.
rr-Within :
    (k : ℕ) (r : Outcome (ProxyState × Wire)) (t : ProxyState) (v : Wire)
    → r ≡ done (t, v)
    → Within k r
    → t.pool.rr ≤ k
rr-Within k r t v e h = rw e at h

pub handle_socks5-rr :
    (out : Outside) (ips : Ips) (key : ℕ) (ip : Bytes) (w : Wire) (st t : ProxyState) (v : Wire)
    → handle_socks5 out ips key ip w st ≡ done (t, v)
    → t.pool.rr ≤ st.pool.rr + 3
unfolding handle_socks5
handle_socks5-rr out ips key ip w st t v e = rr-Within (st.pool.rr + 3) _ t v e (
    with_lease-Within (send (reject_reply 1))
      (λ c now_held. after_handshake out key c now_held (handshake ips st.auth w)) w st
      (acquire out.refill out.now ip st.limiter)
      (λ c.
        after_handshake-Within out key c
          (record st { limiter = (acquire out.refill out.now ip st.limiter).0 })
          (handshake ips st.auth w)))

dial_target-Within :
    (out : Outside) (key : ℕ) (tunnel : Wire → Wire) (c : ConnLease) (w : Wire) (st : ProxyState)
    (o : Option (Bytes × ℤ))
    → Within (st.pool.rr + 3) (dial_target out key tunnel c w st o)
dial_target-Within out key tunnel c w st none = omega arith
dial_target-Within out key tunnel c w st (some (host, port)) =
    dial_session-Within _ key tunnel _ c w st

after_read-Within :
    (out : Outside) (ps : Parsers) (key : ℕ) (c : ConnLease) (w : Wire) (st : ProxyState)
    (o : Option Request)
    → Within (st.pool.rr + 3) (after_read out ps key c w st o)
unfolding handle_connect handle_plain
after_read-Within out ps key c w st none = omega arith
after_read-Within out ps key c w st (some r) =
    by_tests (is_passed (check_http_header ps.decode r.authorization st.auth)) r.is_connect
  where
    by_tests :
        (ok connect : Bool)
        → Within (st.pool.rr + 3) (
            if ok
            then (if connect
                then handle_connect out ps key r c w st
                else handle_plain out ps key r c w st)
            else give_up c (send reply_407 w) st)
    by_tests true true = dial_target-Within out key _ c w st _
    by_tests true false = dial_target-Within out key _ c w st _
    by_tests false connect = omega arith

pub handle_http-rr :
    (out : Outside) (ps : Parsers) (key : ℕ) (ip : Bytes) (w : Wire) (st t : ProxyState) (v : Wire)
    → handle_http out ps key ip w st ≡ done (t, v)
    → t.pool.rr ≤ st.pool.rr + 3
unfolding handle_http
handle_http-rr out ps key ip w st t v e = rr-Within (st.pool.rr + 3) _ t v e (
    with_lease-Within (send (reply_502 (codes "upstream limit")))
      (λ c now_held. after_read out ps key c w now_held (ps.read_request w.recv)) w st
      (acquire out.refill out.now ip st.limiter)
      (λ c.
        after_read-Within out ps key c w
          (record st { limiter = (acquire out.refill out.now ip st.limiter).0 })
          (ps.read_request w.recv)))
