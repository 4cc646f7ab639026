-- ===== src/Proxy/Http.antt =====
-- internal/proxy/http_proxy.go: handle of the HTTP listener, with handleConnect and handlePlain, and
-- SplitHostPort of state.go. http.ReadRequest, net.SplitHostPort, fmt.Sscanf and base64 are parameters,
-- and so is what becomes of the request after it was sent on. What a tunnel carries is in Proxy/Tunnel.
pub mod Guarded
pub mod Forward
use go_multi_warp.Prelude.{
  ℕ, ℤ, pos, Bool, true, false, List, [], ◌∷◌, ◌++◌, Option, none, some, Bytes, codes, length,
  if◌then◌else◌,
}
use go_multi_warp.Std.{cut, cut_prefix, itoa}
use go_multi_warp.Pool.Select.{Outcome}
use go_multi_warp.Pool.Limiter.{ConnLease, acquire}
use go_multi_warp.Proxy.Auth.{AuthResult, passed, check_http_header}
use go_multi_warp.Proxy.Wire.{Wire, send, close}
use go_multi_warp.Proxy.Socks5.{is_passed}
use go_multi_warp.Proxy.Serve.{ProxyState, Outside, with_lease, give_up, dial_session}

-- What handle reads of a request: if it is a CONNECT, the header Proxy-Authorization, the Host, and the
-- URL as a string.
pub record Request : Type 0 where
  pub is_connect : Bool
  pub authorization : Bytes
  pub host : Bytes
  pub url : Bytes

-- How a plain request that was sent on can end.
pub data Exchange : Type 0 where
  unwritten bad_response client_gone streamed : Exchange

pub record Parsers : Type 0 where
  pub read_request : Bytes → Option Request
  pub decode : Bytes → Option Bytes  -- base64
  pub split : Bytes → Option (Bytes × Bytes)  -- net.SplitHostPort
  pub scan_int : Bytes → Option ℤ  -- fmt.Sscanf with %d
  pub exchange : Request → Exchange

abbrev crlf : Bytes
crlf = 13 ∷ 10 ∷ []

-- The body behind its length.
abbrev with_body : Bytes → Bytes → Bytes
with_body head body =
    head
    ++ (codes "Content-Length: "
        ++ (itoa (pos (length body))
            ++ (crlf ++ (codes "Connection: close" ++ (crlf ++ (crlf ++ body))))))

unfoldable pub reply_407 : Bytes
reply_407 =
    with_body
      (codes "HTTP/1.1 407 Proxy Authentication Required"
        ++ (crlf ++ (codes "Proxy-Authenticate: Basic realm=\"go-multi-warp\"" ++ crlf)))
      (codes "Proxy Authentication Required")

unfoldable pub reply_502 : Bytes → Bytes
reply_502 message =
    with_body (codes "HTTP/1.1 502 Bad Gateway" ++ crlf) (codes "Bad Gateway: " ++ message)

abbrev with_port : Bytes → Option ℤ → Option (Bytes × ℤ)
with_port host none = none
with_port host (some port) = some (host, port)

abbrev or_default : Parsers → Bytes → ℤ → Option (Bytes × Bytes) → Option (Bytes × ℤ)
or_default ps target default none = some (target, default)
or_default ps target default (some (host, port)) = with_port host (ps.scan_int port)

unfoldable pub split_host_port : Parsers → Bytes → ℤ → Option (Bytes × ℤ)
split_host_port ps target default = or_default ps target default (ps.split target)

abbrev before_slash : Bytes → Option (Bytes × Bytes) → Bytes
before_slash rest none = rest
before_slash rest (some (hostport, path)) = hostport

abbrev host_or : Bytes → Option Bytes → Bytes
host_or host none = host
host_or host (some rest) = before_slash rest (cut b'/' rest)

-- The host that a plain request goes to: that of an absolute URL, before the header's.
unfoldable pub target_host : Request → Bytes
target_host r = host_or r.host (cut_prefix r.url (codes "http://"))

abbrev established : Bytes
established = codes "HTTP/1.1 200 Connection Established" ++ (crlf ++ crlf)

abbrev after_exchange : Exchange → Wire → Wire
after_exchange unwritten w = send (reply_502 (codes "write request")) w
after_exchange bad_response w = send (reply_502 (codes "bad upstream response")) w
after_exchange client_gone w = w
after_exchange streamed w = w

-- The dialling of both kinds of request, once the host and the port are known.
abbrev pub dial_target :
    Outside
    → ℕ
    → (Wire → Wire)
    → ConnLease
    → Wire
    → ProxyState
    → Option (Bytes × ℤ)
    → Outcome (ProxyState × Wire)
dial_target out key tunnel c w st none = give_up c (send (reply_502 (codes "bad host")) w) st
dial_target out key tunnel c w st (some (host, port)) =
    dial_session (out.dialler host port) key tunnel (λ e. send (reply_502 e)) c w st

unfoldable pub handle_connect :
    Outside → Parsers → ℕ → Request → ConnLease → Wire → ProxyState → Outcome (ProxyState × Wire)
unfolding split_host_port
handle_connect out ps key r c w st =
    dial_target out key (send established) c w st (split_host_port ps r.host (pos 443))

unfoldable pub handle_plain :
    Outside → Parsers → ℕ → Request → ConnLease → Wire → ProxyState → Outcome (ProxyState × Wire)
unfolding split_host_port target_host
handle_plain out ps key r c w st =
    dial_target out key (after_exchange (ps.exchange r)) c w st
      (split_host_port ps (target_host r) (pos 80))

-- A request that was read, under a lease of the limiter.
abbrev pub after_read :
    Outside
    → Parsers
    → ℕ
    → ConnLease
    → Wire
    → ProxyState
    → Option Request
    → Outcome (ProxyState × Wire)
after_read out ps key c w st none = give_up c (send (reply_502 (codes "bad request")) w) st
after_read out ps key c w st (some r) =
    if is_passed (check_http_header ps.decode r.authorization st.auth)
    then (if r.is_connect
        then handle_connect out ps key r c w st
        else handle_plain out ps key r c w st)
    else give_up c (send reply_407 w) st

unfoldable pub handle_http :
    Outside → Parsers → ℕ → Bytes → Wire → ProxyState → Outcome (ProxyState × Wire)
unfolding handle_connect handle_plain send close
handle_http out ps key ip w st =
    with_lease (send (reply_502 (codes "upstream limit")))
      (λ c now_held. after_read out ps key c w now_held (ps.read_request w.recv)) w st
      (acquire out.refill out.now ip st.limiter)
