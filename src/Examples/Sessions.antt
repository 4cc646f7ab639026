-- ===== src/Examples/Sessions.antt =====
-- Sessions of internal/proxy at work on a small pool and a new limiter.
use go_multi_warp.Prelude.{
  pos, ◌≡◌, ◌⊎◌, refl, true, false, [], ◌∷◌, ◌++◌, some, none, Bytes, codes, arith, inr,
}
use go_multi_warp.Pool.Limiter.{new_conn_limiter, find_ip}
use go_multi_warp.Pool.Limiter.Calls.{IsAccounted}
use go_multi_warp.Pool.Limiter.Counts.{count}
use go_multi_warp.Pool.Select.Polls.{inflights}
use go_multi_warp.Proxy.Auth.{ProxyAuth, new_proxy_auth}
use go_multi_warp.Proxy.Wire.{Wire, returned}
use go_multi_warp.Proxy.Socks5.{Ips, connect_socks5, handshake, success_reply}
use go_multi_warp.Proxy.Socks5.RoundTrip.{connect_socks5-handshake}
use go_multi_warp.Proxy.Socks5.Granted.{OnReturned, Greeted, handshake-Greeted}
use go_multi_warp.Proxy.Serve.{ProxyState, Outside, handle_socks5}
use go_multi_warp.Proxy.Serve.Balance.{Settled, handle_socks5-Settled}
use go_multi_warp.Proxy.Http.{Request, Parsers, unwritten, handle_http}
use go_multi_warp.Proxy.Http.Guarded.{
  handle_http-Settled, Presents, TurnedAway, handle_http-TurnedAway,
}
use go_multi_warp.Examples.Pools.{small_pool}

-- No host of these sessions is an address.
abbrev pub ips : Ips
ips = record { parse = λ s. none; show = λ b. codes "::1" }

abbrev open_auth : ProxyAuth
open_auth = record { enabled = false; username = []; password = [] }

abbrev pub wire : Bytes → Wire
wire s = record { recv = s; sent = []; writes_left = 5; closed = false }

abbrev pub state : ProxyState
state = record {
  pool = small_pool;
  limiter = new_conn_limiter (pos 4) (pos 2) (pos 0);
  auth = record { enabled = true; username = codes "user"; password = codes "pass" };
}

abbrev pub outside : Outside
outside = record {
  refill = λ a b. pos 1;
  now = pos 30;
  dialler =
      λ host port. record { selected_at = λ k. 30; dialled_at = λ k. 31; connect = λ k addr. none };
}

new_limiter-IsAccounted : IsAccounted (pos 4) (pos 2) (state.limiter, [])
unfolding new_conn_limiter count find_ip
new_limiter-IsAccounted = record {
  total = refl;
  within = ground arith;
  same_global = refl;
  same_ip = refl;
  each = λ ip. inr (refl, ground arith);
}

connect_socks5-handshake_example :
    (c : Wire) × (connect_socks5 ips (codes "example.org") (pos 443) (record {
      recv = (5 ∷ 0 ∷ []) ++ (success_reply ++ codes "hello");
      sent = [];
      writes_left = 2;
      closed = false;
    })
      ≡ (returned tt, c))
    × (c.recv ≡ codes "hello")
    × (c.closed ≡ false)
    × (handshake ips open_auth
          (record { recv = c.sent ++ codes "GET"; sent = []; writes_left = 1; closed = false })
        ≡ (
          returned (codes "example.org", 443),
          record { recv = codes "GET"; sent = 5 ∷ 0 ∷ []; writes_left = 0; closed = false },
        ))
connect_socks5-handshake_example =
    connect_socks5-handshake ips open_auth (codes "example.org") (codes "hello") (codes "GET") 443 0
      0 refl (omega arith) (omega arith)

handshake-Greeted_example :
    OnReturned (Greeted open_auth (5 ∷ 1 ∷ 0 ∷ 5 ∷ 1 ∷ 0 ∷ 1 ∷ 10 ∷ 0 ∷ 0 ∷ 1 ∷ 0 ∷ 80 ∷ [])) (
      handshake ips open_auth
        (record (wire []) { recv = 5 ∷ 1 ∷ 0 ∷ 5 ∷ 1 ∷ 0 ∷ 1 ∷ 10 ∷ 0 ∷ 0 ∷ 1 ∷ 0 ∷ 80 ∷ [] }))
handshake-Greeted_example =
    handshake-Greeted ips open_auth (5 ∷ 1 ∷ 0 ∷ 5 ∷ 1 ∷ 0 ∷ 1 ∷ 10 ∷ 0 ∷ 0 ∷ 1 ∷ 0 ∷ 80 ∷ [])
      (wire [])

handle_socks5-Settled_example :
    Settled
      (inflights small_pool.backends)
      (pos 4)
      (pos 2)
      []
      (handle_socks5 outside ips 7 (codes "10.0.0.1") (wire (5 ∷ 1 ∷ 0 ∷ [])) state)
handle_socks5-Settled_example =
    handle_socks5-Settled outside ips 7 (codes "10.0.0.1") (wire (5 ∷ 1 ∷ 0 ∷ [])) state (pos 4)
      (pos 2) [] (omega arith) (omega arith)
      ((omega arith, omega arith), ((omega arith, omega arith), tt)) (omega arith)
      new_limiter-IsAccounted

abbrev get_request : Request
get_request = record {
  is_connect = false;
  authorization = [];
  host = codes "example.org";
  url = codes "http://example.org/";
}

-- Parsers that read this one request from every stream.
abbrev parsers : Parsers
parsers = record {
  read_request = λ s. some get_request;
  decode = λ s. none;
  split = λ s. none;
  scan_int = λ s. none;
  exchange = λ r. unwritten;
}

handle_http-Settled_example :
    Settled
      (inflights small_pool.backends)
      (pos 4)
      (pos 2)
      []
      (handle_http outside parsers 7 (codes "10.0.0.1") (wire []) state)
handle_http-Settled_example =
    handle_http-Settled outside parsers 7 (codes "10.0.0.1") (wire []) state (pos 4) (pos 2) []
      (omega arith) (omega arith) ((omega arith, omega arith), ((omega arith, omega arith), tt))
      (omega arith) new_limiter-IsAccounted

handle_http-TurnedAway_example :
    TurnedAway state (wire []) (handle_http outside parsers 7 (codes "10.0.0.1") (wire []) state)
    ⊎ ((q : Request) × (some get_request ≡ some q)
        × Presents parsers.decode (codes "user") (codes "pass") q.authorization)
handle_http-TurnedAway_example =
    handle_http-TurnedAway outside parsers 7 (codes "user") (codes "pass") (codes "10.0.0.1")
      (wire []) state refl refl (unfold new_proxy_auth in refl)
