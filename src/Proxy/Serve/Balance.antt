-- ===== src/Proxy/Serve/Balance.antt =====
-- What a session of the listeners of internal/proxy leaves behind: every lease it took is given back.
use go_multi_warp.Prelude.{
  ℕ, ◌+◌, ◌<◌, ℤ, IsInt32, ◌≡◌, refl, sym, subst, true, List, ◌∷◌, none, some, Bytes, arith, length,
  All, All-get,
}
use go_multi_warp.Pool.Registry.{Pool}
use go_multi_warp.Pool.Select.{Outcome, done}
use go_multi_warp.Pool.Select.Polls.{inflights}
use go_multi_warp.Pool.Limiter
use go_multi_warp.Pool.Limiter.{ConnLimiter, ConnLease, Acquired, admitted, rejected, acquire}
use go_multi_warp.Pool.Limiter.Counts.{remove}
use go_multi_warp.Pool.Limiter.Effects.{Small}
use go_multi_warp.Pool.Limiter.Calls.{acquires, releases, add_lease, serve, IsAccounted}
use go_multi_warp.Pool.Limiter.Accounting.{serve-IsAccounted}
use go_multi_warp.Proxy.Dial.{Dialler, Dialled, connected, no_backend}
use go_multi_warp.Proxy.Dial.Slots.{inflights-lease_release}
use go_multi_warp.Proxy.Dial.Balance.{Balanced, dial_via_socks-Balanced}
use go_multi_warp.Proxy.Wire.{Wire, Ended, failed, returned, send, close}
use go_multi_warp.Proxy.Socks5.{Ips, Refusal, hang_up, reply, handshake}
use go_multi_warp.Proxy.Serve.{
  ProxyState, Outside, after_dial, dial_session, give_up, after_handshake, with_lease, reject_reply,
  handle_socks5,
}

-- The session ends with the connection closed, with the in-flight counts `ns`, and with the limiter's
-- counters those of the leases `held`.
abbrev pub Settled : List ℤ → ℤ → ℤ → List Bytes → Outcome (ProxyState × Wire) → Type 0
Settled ns max_global max_per_ip held r =
    (t : ProxyState) × (v : Wire) × (r ≡ done (t, v))
    × (inflights t.pool.backends ≡ ns)
    × IsAccounted max_global max_per_ip (t.limiter, held)
    × (v.closed ≡ true)

module _ (ns : List ℤ) (max_global max_per_ip : ℤ) (held : List Bytes) where
  after_dial-Settled :
      (tunnel : Wire → Wire) (complain : Bytes → Wire → Wire) (c : ConnLease) (w : Wire)
      (st : ProxyState) (q : Pool) (o : Dialled)
      → All IsInt32 ns
      → IsAccounted max_global max_per_ip (Limiter.release c st.limiter, held)
      → Balanced ns (inflights q.backends) o
      → Settled ns max_global max_per_ip held (after_dial tunnel complain c w st (q, o))
  unfolding close
  after_dial-Settled tunnel complain c w st q (connected i) small a (n, at, took) = (
    _,
    _,
    refl,
    inflights-lease_release i ns q n at (All-get IsInt32 ns i n small at) took,
    a,
    refl,
  )
  after_dial-Settled tunnel complain c w st q no_backend small a same = (_, _, refl, same, a, refl)
  after_dial-Settled tunnel complain c w st q (Dialled.failed (some e)) small a (same, x, h) =
      (_, _, refl, same, a, refl)
  after_dial-Settled tunnel complain c w st q (Dialled.failed none) small a (same, x, h) =
      absurd (cc)

  pub dial_session-Settled :
      (d : Dialler) (key : ℕ) (tunnel : Wire → Wire) (complain : Bytes → Wire → Wire)
      (c : ConnLease) (w : Wire) (st : ProxyState)
      → key < 0x8000000000000000
      → st.pool.rr + 3 < 0x8000000000000000
      → inflights st.pool.backends ≡ ns
      → All IsInt32 ns
      → IsAccounted max_global max_per_ip (Limiter.release c st.limiter, held)
      → Settled ns max_global max_per_ip held (dial_session d key tunnel complain c w st)
  unfolding dial_session
  dial_session-Settled d key tunnel complain c w st h r same small a =
      let (q, o, e, b) =
        dial_via_socks-Balanced d key st.pool h r (subst (All IsInt32) (sym same) small) in
      rw e (
        after_dial-Settled tunnel complain c w st q o small a
          (subst (λ xs. Balanced xs (inflights q.backends) o) same b))

  pub give_up-Settled :
      (c : ConnLease) (w : Wire) (st : ProxyState)
      → inflights st.pool.backends ≡ ns
      → IsAccounted max_global max_per_ip (Limiter.release c st.limiter, held)
      → Settled ns max_global max_per_ip held (give_up c w st)
  unfolding close
  give_up-Settled c w st same a = (_, _, refl, same, a, refl)

  -- A session under a lease of the limiter settles if what it does with the lease does.
  pub with_lease-Settled :
      (refuse : Wire → Wire) (next : ConnLease → ProxyState → Outcome (ProxyState × Wire))
      (w : Wire) (st : ProxyState) (refill : ℤ → ℤ → ℤ) (x : ConnLimiter × Acquired)
      → inflights st.pool.backends ≡ ns
      → Small (length held + 1)
      → IsAccounted max_global max_per_ip (x.0, add_lease x.1 held)
      → ((c : ConnLease)
          → IsAccounted max_global max_per_ip (Limiter.release c x.0, held)
          → Settled ns max_global max_per_ip held (next c (record st { limiter = x.0 })))
      → Settled ns max_global max_per_ip held (with_lease refuse next w st x)
  unfolding close
  with_lease-Settled refuse next w st refill (l, rejected e) same small a go =
      (_, _, refl, same, a, refl)
  with_lease-Settled refuse next w st refill (l, admitted c) same small a go = go c (
      unfold serve remove in
      serve-IsAccounted refill max_global max_per_ip (releases 0) (l, c.ip ∷ held) (omega arith) a)

after_handshake-Settled :
    (ns : List ℤ) (max_global max_per_ip : ℤ) (held : List Bytes) (out : Outside) (key : ℕ)
    (c : ConnLease) (st : ProxyState) (r : Ended Refusal (Bytes × ℕ) × Wire)
    → key < 0x8000000000000000
    → st.pool.rr + 3 < 0x8000000000000000
    → inflights st.pool.backends ≡ ns
    → All IsInt32 ns
    → IsAccounted max_global max_per_ip (Limiter.release c st.limiter, held)
    → Settled ns max_global max_per_ip held (after_handshake out key c st r)
after_handshake-Settled ns mg mi held out key c st (failed hang_up, w) h r same small a =
    give_up-Settled ns mg mi held c w st same a
after_handshake-Settled ns mg mi held out key c st (failed (reply code), w) h r same small a =
    give_up-Settled ns mg mi held c _ st same a
after_handshake-Settled ns mg mi held out key c st (returned (host, port), w) h r same small a =
    dial_session-Settled ns mg mi held _ key _ _ c w st h r same small a

-- Whatever a peer sends and however its session of the SOCKS5 listener ends (a rejection by the limiter,
-- a broken stream, bad credentials, no backend, a tunnel), it does not panic, for a sticky key below
-- 2 ^ 63, a round-robin counter more than 3 below it, in-flight counts of an int32 and a limiter whose
-- counters are right, with fewer than 2 ^ 63 - 2 leases out: the connection is closed, no backend keeps a slot of it, and
-- the limiter's counters are again those of the leases that were out before.
pub handle_socks5-Settled :
    (out : Outside) (ips : Ips) (key : ℕ) (ip : Bytes) (w : Wire) (st : ProxyState)
    (max_global max_per_ip : ℤ) (held : List Bytes)
    → key < 0x8000000000000000
    → st.pool.rr + 3 < 0x8000000000000000
    → All IsInt32 (inflights st.pool.backends)
    → Small (length held + 1)
    → IsAccounted max_global max_per_ip (st.limiter, held)
    → Settled
        (inflights st.pool.backends)
        max_global
        max_per_ip
        held
        (handle_socks5 out ips key ip w st)
unfolding handle_socks5
handle_socks5-Settled out ips key ip w st mg mi held h r small few a =
    with_lease-Settled (inflights st.pool.backends) mg mi held (send (reject_reply 1))
      (λ c now_held. after_handshake out key c now_held (handshake ips st.auth w)) w st out.refill
      (acquire out.refill out.now ip st.limiter) refl few
      (unfold serve in
        serve-IsAccounted out.refill mg mi (acquires out.now ip) (st.limiter, held) (omega arith) a)
      (λ c b.
        after_handshake-Settled (inflights st.pool.backends) mg mi held out key c
          (record st { limiter = (acquire out.refill out.now ip st.limiter).0 })
          (handshake ips st.auth w) h r refl small b)
