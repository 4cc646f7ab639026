-- ===== src/Proxy/Serve.antt =====
-- A session of the listeners of internal/proxy, from the limiter to the end of its lease: NewState of
-- state.go and handle of socks5.go, with what the listener of http_proxy.go shares with it. What a
-- tunnel carries is in Proxy/Tunnel: a session runs with nothing else at work.
pub mod Balance
use go_multi_warp.Prelude.{ℕ, ℤ, pos, List, [], ◌∷◌, Option, none, some, Bytes, codes}
use go_multi_warp.Config.{Config}
use go_multi_warp.Pool.Registry.{Pool, lease_release}
use go_multi_warp.Pool.Select.{Outcome, panic, done, ◌>>=◌}
use go_multi_warp.Pool.Limiter
use go_multi_warp.Pool.Limiter.{
  ConnLimiter, ConnLease, Acquired, admitted, rejected, acquire, new_conn_limiter,
}
use go_multi_warp.Proxy.Auth.{ProxyAuth, new_proxy_auth}
use go_multi_warp.Proxy.Dial.{Dialler, Dialled, connected, no_backend, dial_via_socks}
use go_multi_warp.Proxy.Dial
use go_multi_warp.Proxy.Wire.{Wire, Ended, failed, returned, send, close}
use go_multi_warp.Proxy.Socks5.{Ips, Refusal, hang_up, reply, handshake, success_reply}

pub record ProxyState : Type 0 where
  pub pool : Pool
  pub limiter : ConnLimiter
  pub auth : ProxyAuth

unfoldable pub new_state : Config → Pool → ProxyState
new_state c p = record {
  pool = p;
  limiter =
      new_conn_limiter c.limits.max_conn_global c.limits.max_conn_per_ip c.limits.max_rps_per_ip;
  auth = new_proxy_auth c.auth.username c.auth.password;
}

-- What a session takes from outside: the filling of a bucket and its time, and the way to a target.
pub record Outside : Type 0 where
  pub refill : ℤ → ℤ → ℤ
  pub now : ℤ
  pub dialler : Bytes → ℤ → Dialler

abbrev pub released : ConnLease → ProxyState → ProxyState
released c st = record st { limiter = Limiter.release c st.limiter }

-- err.Error() of DialViaSocks; `none` is a nil error.
abbrev pub no_healthy : Bytes
no_healthy = codes "no healthy WARP backend available"

-- What follows DialViaSocks: with a connection, `tunnel` is done and the slot given back; with an error,
-- `complain`. With neither, the first use of the missing connection panics.
abbrev pub after_dial :
    (Wire → Wire)
    → (Bytes → Wire → Wire)
    → ConnLease
    → Wire
    → ProxyState
    → Pool × Dialled
    → Outcome (ProxyState × Wire)
after_dial tunnel complain c w st (q, connected i) =
    done (released c (record st { pool = lease_release i q }), close (tunnel w))
after_dial tunnel complain c w st (q, no_backend) =
    done (released c (record st { pool = q }), close (complain no_healthy w))
after_dial tunnel complain c w st (q, Dialled.failed (some e)) =
    done (released c (record st { pool = q }), close (complain e w))
after_dial tunnel complain c w st (q, Dialled.failed none) = panic

unfoldable pub dial_session :
    Dialler
    → ℕ
    → (Wire → Wire)
    → (Bytes → Wire → Wire)
    → ConnLease
    → Wire
    → ProxyState
    → Outcome (ProxyState × Wire)
dial_session d key tunnel complain c w st = do
  dialled ← dial_via_socks d key st.pool
  after_dial tunnel complain c w st dialled

-- The deferred release of the limiter's lease, and the deferred close.
abbrev pub give_up : ConnLease → Wire → ProxyState → Outcome (ProxyState × Wire)
give_up c w st = done (released c st, close w)

-- replyReject
abbrev pub reject_reply : ℕ → Bytes
reject_reply code = 5 ∷ code ∷ 0 ∷ 1 ∷ 0 ∷ 0 ∷ 0 ∷ 0 ∷ 0 ∷ 0 ∷ []

abbrev pub after_handshake :
    Outside
    → ℕ
    → ConnLease
    → ProxyState
    → Ended Refusal (Bytes × ℕ) × Wire
    → Outcome (ProxyState × Wire)
after_handshake out key c st (failed hang_up, w) = give_up c w st
after_handshake out key c st (failed (reply code), w) = give_up c (send (reject_reply code) w) st
after_handshake out key c st (returned (host, port), w) =
    dial_session (out.dialler host (pos port)) key (send success_reply) (λ e. send (reject_reply 1))
      c w st

-- The listener's answer to a peer that the limiter rejects is `refuse`.
abbrev pub with_lease :
    (Wire → Wire)
    → (ConnLease → ProxyState → Outcome (ProxyState × Wire))
    → Wire
    → ProxyState
    → ConnLimiter × Acquired
    → Outcome (ProxyState × Wire)
with_lease refuse next w st (l, rejected e) = done (record st { limiter = l }, close (refuse w))
with_lease refuse next w st (l, admitted c) = next c (record st { limiter = l })

-- handle of socks5.go, for a peer with this sticky key and this name for the limiter.
unfoldable pub handle_socks5 :
    Outside → Ips → ℕ → Bytes → Wire → ProxyState → Outcome (ProxyState × Wire)
unfolding dial_session send close
handle_socks5 out ips key ip w st =
    with_lease (send (reject_reply 1))
      (λ c now_held. after_handshake out key c now_held (handshake ips st.auth w)) w st
      (acquire out.refill out.now ip st.limiter)
