-- ===== src/Proxy/Http/Guarded.antt =====
-- What the HTTP listener of http_proxy.go leaves behind, and that it serves nobody without credentials.
use go_multi_warp.Prelude.{
  ℕ, ◌+◌, ◌<◌, ℤ, pos, IsInt32, ◌≡◌, refl, ap, ◌⊎◌, inl, inr, is_empty, Bool-cases, ◌∷◌, Bool, true,
  false, List, ◌++◌, Option, none, some, Bytes, codes, arith, length, All, if◌then◌else◌,
}
use go_multi_warp.Pool.Select.{Outcome, done}
use go_multi_warp.Pool.Select.Polls.{inflights}
use go_multi_warp.Pool.Limiter
use go_multi_warp.Pool.Limiter.{ConnLimiter, ConnLease, Acquired, admitted, rejected, acquire}
use go_multi_warp.Pool.Limiter.Effects.{Small}
use go_multi_warp.Pool.Limiter.Calls.{acquires, serve, IsAccounted}
use go_multi_warp.Pool.Limiter.Accounting.{serve-IsAccounted}
use go_multi_warp.Std.{has_prefix, to_lower, trim_space}
use go_multi_warp.Std.Split.{has_byte}
use go_multi_warp.Proxy.Auth.{
  AuthResult, passed, auth_required, auth_failed, drop, new_proxy_auth, check_http_header,
  check_http_header-passed,
}
use go_multi_warp.Proxy.Wire.{Wire, send, close}
use go_multi_warp.Proxy.Socks5.{is_passed}
use go_multi_warp.Proxy.Serve.{ProxyState, Outside, give_up, with_lease}
use go_multi_warp.Proxy.Serve.Balance.{
  Settled, dial_session-Settled, give_up-Settled, with_lease-Settled,
}
use go_multi_warp.Proxy.Http.{
  Request, Parsers, reply_407, reply_502, split_host_port, target_host, established, after_exchange,
  dial_target, handle_connect, handle_plain, after_read, handle_http,
}

module _ (ns : List ℤ) (max_global max_per_ip : ℤ) (held : List Bytes) (out : Outside)
    (ps : Parsers) (key : ℕ) (c : ConnLease) (w : Wire) (st : ProxyState)
    (h : key < 0x8000000000000000) (r : st.pool.rr + 3 < 0x8000000000000000)
    (same : inflights st.pool.backends ≡ ns) (small : All IsInt32 ns)
    (a : IsAccounted max_global max_per_ip (Limiter.release c st.limiter, held)) where
  dial_target-Settled :
      (tunnel : Wire → Wire) (o : Option (Bytes × ℤ))
      → Settled ns max_global max_per_ip held (dial_target out key tunnel c w st o)
  dial_target-Settled tunnel none =
      give_up-Settled ns max_global max_per_ip held c (send (reply_502 (codes "bad host")) w) st
        same a
  dial_target-Settled tunnel (some (host, port)) =
      dial_session-Settled ns max_global max_per_ip held (out.dialler host port) key tunnel
        (λ e. send (reply_502 e)) c w st h r same small a

  after_read-Settled :
      (o : Option Request) → Settled ns max_global max_per_ip held (after_read out ps key c w st o)
  unfolding handle_connect handle_plain
  after_read-Settled none =
      give_up-Settled ns max_global max_per_ip held c (send (reply_502 (codes "bad request")) w) st
        same a
  after_read-Settled (some q) =
      by_tests (is_passed (check_http_header ps.decode q.authorization st.auth)) q.is_connect
    where
      by_tests :
          (ok connect : Bool)
          → Settled ns max_global max_per_ip held (
              if ok
              then (if connect
                  then handle_connect out ps key q c w st
                  else handle_plain out ps key q c w st)
              else give_up c (send reply_407 w) st)
      by_tests true true =
          dial_target-Settled (send established) (split_host_port ps q.host (pos 443))
      by_tests true false =
          dial_target-Settled (after_exchange (ps.exchange q))
            (split_host_port ps (target_host q) (pos 80))
      by_tests false connect =
          give_up-Settled ns max_global max_per_ip held c (send reply_407 w) st same a

-- However a session of the HTTP listener ends (a rejection by the limiter, a bad request or host, wrong
-- credentials, no backend, a tunnel or a plain exchange), it does not panic, for a sticky key below 2 ^ 63, a
-- round-robin counter more than 3 below it, in-flight counts of an int32 and a limiter whose counters
-- are right, with fewer than 2 ^ 63 - 2 leases out: the connection is closed, no backend keeps a slot of it, and
-- the limiter's counters are again those of the leases that were out before.
pub handle_http-Settled :
    (out : Outside) (ps : Parsers) (key : ℕ) (ip : Bytes) (w : Wire) (st : ProxyState)
    (max_global max_per_ip : ℤ) (held : List Bytes)
    → key < 0x8000000000000000
    → st.pool.rr + 3 < 0x8000000000000000
    → All IsInt32 (inflights st.pool.backends)
    → Small (length held + 1)
    → IsAccounted max_global max_per_ip (st.limiter, held)
    → Settled
        (inflights st.pool.backends)
        max_global
        max_per_ip
        held
        (handle_http out ps key ip w st)
unfolding handle_http
handle_http-Settled out ps key ip w st mg mi held h r small few a =
    with_lease-Settled (inflights st.pool.backends) mg mi held
      (send (reply_502 (codes "upstream limit")))
      (λ c now_held. after_read out ps key c w now_held (ps.read_request w.recv)) w st out.refill
      (acquire out.refill out.now ip st.limiter) refl few
      (unfold serve in
        serve-IsAccounted out.refill mg mi (acquires out.now ip) (st.limiter, held) (omega arith) a)
      (λ c b.
        after_read-Settled (inflights st.pool.backends) mg mi held out ps key c w
          (record st { limiter = (acquire out.refill out.now ip st.limiter).0 }) h r refl small b
          (ps.read_request w.recv))

-- A header with the configured user and password, whose name has no colon.
abbrev pub Presents : (Bytes → Option Bytes) → Bytes → Bytes → Bytes → Type 0
Presents decode user pass header =
    (has_prefix (codes "basic ") (to_lower (trim_space header)) ≡ true)
    × (decode (trim_space (drop 6 (trim_space header))) ≡ some (user ++ b':' ∷ pass))
    × (has_byte b':' user ≡ false)

abbrev pub IsError : Bytes → Type 0
IsError reply = (reply ≡ reply_407) ⊎ ((message : Bytes) × (reply ≡ reply_502 message))

-- The pool is as it was; one error reply was written, if the peer can still be written to, and nothing
-- else; and the connection is closed.
abbrev pub TurnedAway : ProxyState → Wire → Outcome (ProxyState × Wire) → Type 0
TurnedAway st w r =
    (t : ProxyState) × (reply : Bytes) × (r ≡ done (t, close (send reply w)))
    × (t.pool ≡ st.pool)
    × IsError reply

is_passed_lem : (x : AuthResult) → is_passed x ≡ true → x ≡ passed
is_passed_lem passed e = refl
is_passed_lem auth_required e = absurd (cc)
is_passed_lem auth_failed e = absurd (cc)

empty_header :
    (decode : Bytes → Option Bytes) (header user pass : Bytes)
    → is_empty user ≡ false
    → is_empty pass ≡ false
    → is_empty header ≡ true
    → check_http_header decode header (new_proxy_auth user pass) ≡ auth_required
unfolding check_http_header new_proxy_auth
empty_header decode header user pass hu hp e = rw (hu, hp, e) refl

passed_header :
    (decode : Bytes → Option Bytes) (header user pass : Bytes)
    → is_empty user ≡ false
    → is_empty pass ≡ false
    → is_passed (check_http_header decode header (new_proxy_auth user pass)) ≡ true
    → Presents decode user pass header
passed_header decode header user pass hu hp h =
    let got = is_passed_lem (check_http_header decode header (new_proxy_auth user pass)) h in
    elim (Bool-cases (is_empty header)) [
      | inl e ↦ let asked = empty_header decode header user pass hu hp e in absurd (cc)
      | inr f ↦ (check_http_header-passed decode header user pass f hu hp).0 got
    ]

module _ (out : Outside) (ps : Parsers) (key : ℕ) (user pass : Bytes) (hu : is_empty user ≡ false)
    (hp : is_empty pass ≡ false) (w : Wire) where
  read-TurnedAway :
      (c : ConnLease) (st : ProxyState) (o : Option Request)
      → st.auth ≡ new_proxy_auth user pass
      → TurnedAway st w (after_read out ps key c w st o)
        ⊎ ((q : Request) × (o ≡ some q) × Presents ps.decode user pass q.authorization)
  read-TurnedAway c st none same =
      inl (_, reply_502 (codes "bad request"), refl, refl, inr (codes "bad request", refl))
  read-TurnedAway c st (some q) same =
      elim (Bool-cases (is_passed (check_http_header ps.decode q.authorization st.auth))) [
        | inl t ↦
            inr (q, refl, passed_header ps.decode q.authorization user pass hu hp (rw same at t))
        | inr f ↦ inl (
          _,
          reply_407,
          ap
              (λ b.
                if b
                then (if q.is_connect
                    then handle_connect out ps key q c w st
                    else handle_plain out ps key q c w st)
                else give_up c (send reply_407 w) st)
              f,
          refl,
          inl refl,
        )
      ]

  lease-TurnedAway :
      (st : ProxyState) (x : ConnLimiter × Acquired)
      → st.auth ≡ new_proxy_auth user pass
      → TurnedAway st w (
          with_lease
            (send (reply_502 (codes "upstream limit")))
            (λ c now_held. after_read out ps key c w now_held (ps.read_request w.recv))
            w
            st
            x)
        ⊎ ((q : Request) × (ps.read_request w.recv ≡ some q)
            × Presents ps.decode user pass q.authorization)
  lease-TurnedAway st (l, rejected e) same =
      inl (_, reply_502 (codes "upstream limit"), refl, refl, inr (codes "upstream limit", refl))
  lease-TurnedAway st (l, admitted c) same =
      read-TurnedAway c (record st { limiter = l }) (ps.read_request w.recv) same

-- With a user and a password configured, a session of the HTTP listener serves nobody without them. Either
-- it is turned away: the pool stays as it was, the one reply is an error (407 or 502), if the peer can
-- still be written to, and the connection is closed; or its request was read, and the header
-- Proxy-Authorization is the word Basic, in any case, with a text that decodes to the user, a colon
-- and the password, where the user's name has no colon.
pub handle_http-TurnedAway :
    (out : Outside) (ps : Parsers) (key : ℕ) (user pass ip : Bytes) (w : Wire) (st : ProxyState)
    → is_empty user ≡ false
    → is_empty pass ≡ false
    → st.auth ≡ new_proxy_auth user pass
    → TurnedAway st w (handle_http out ps key ip w st)
      ⊎ ((q : Request) × (ps.read_request w.recv ≡ some q)
          × Presents ps.decode user pass q.authorization)
unfolding handle_http
handle_http-TurnedAway out ps key user pass ip w st hu hp same =
    lease-TurnedAway out ps key user pass hu hp w st (acquire out.refill out.now ip st.limiter) same
