-- ===== src/Proxy/Socks5/RoundTrip.antt =====
-- What the client of tunnel.go writes is what the server of socks5.go reads.
use go_multi_warp.Prelude.{
  ℕ, suc, ◌<◌, pos, ◌≡◌, refl, ap, subst, ◌∙◌, false, [], ◌∷◌, ◌++◌, Option, none, some, Bytes,
  length, arith,
}
use mathlib.Core.List.{append_assoc}
use go_multi_warp.Proxy.Auth.{ProxyAuth}
use go_multi_warp.Proxy.Wire.{Wire, returned, then_on, read_byte, read_full, write}
use go_multi_warp.Proxy.Wire.Reads.{read_full-append}
use go_multi_warp.Proxy.Socks5.{
  Ip, v4, v6, Ips, Refusal, reply, port_bytes, address_bytes, read_port, read_socks_addr,
  contains_method, negotiate, read_request, handshake, success_reply, connect_socks5,
}

read_port-bytes :
    {E : Type 0} (e : E) (host rest : Bytes) (port : ℕ) (w : Wire)
    → port < 65536
    → read_port e host (record w { recv = port_bytes (pos port) ++ rest })
      ≡ (returned (host, port), record w { recv = rest })
unfolding read_byte
read_port-bytes e host rest port w h =
    ap (λ n. (returned (host, n), record w { recv = rest })) (omega arith)

-- What the server makes of a host: an address in its own notation, or the name as it stands.
abbrev pub shown : Ips → Bytes → Option Ip → Bytes
shown ips host none = host
shown ips host (some (v4 a b c d)) = ips.show (a ∷ b ∷ c ∷ d ∷ [])
shown ips host (some (v6 bs)) = ips.show bs

-- A name fits in 255 bytes; an address has 4 bytes or 16.
abbrev pub Fits : Bytes → Option Ip → Type 0
Fits host none = length host < 256
Fits host (some (v4 a b c d)) = Unit {0}
Fits host (some (v6 bs)) = length bs ≡ 16

-- The type and the bytes of a host that fits.
abbrev address_of : Bytes → Option Ip → Bytes
address_of host none = 3 ∷ length host ∷ host
address_of host (some (v4 a b c d)) = 1 ∷ a ∷ b ∷ c ∷ d ∷ []
address_of host (some (v6 bs)) = 4 ∷ bs

address_bytes-Fits :
    (ips : Ips) (host : Bytes) (o : Option Ip)
    → ips.parse host ≡ o
    → Fits host o
    → address_bytes ips host ≡ some (address_of host o)
unfolding address_bytes
address_bytes-Fits ips host none e f = rw (e, address_bytes) (ground arith)
address_bytes-Fits ips host (some (v4 a b c d)) e f = rw (e, address_bytes) refl
address_bytes-Fits ips host (some (v6 bs)) e f = rw (e, address_bytes) refl

read_v6 :
    (ips : Ips) (bs rest : Bytes) (port : ℕ) (e : Refusal) (w : Wire)
    → length bs ≡ 16
    → port < 65536
    → read_socks_addr ips 4 e (record w { recv = bs ++ (port_bytes (pos port) ++ rest) })
      ≡ (returned (ips.show bs, port), record w { recv = rest })
unfolding read_socks_addr
read_v6 ips bs rest port e w six h =
    let whole : Bytes = bs ++ (port_bytes (pos port) ++ rest) in
    ap (then_on (λ b. read_port e (ips.show b))) (
      subst
        (λ n.
          read_full n e (record w { recv = whole })
          ≡ (returned bs, record w { recv = port_bytes (pos port) ++ rest }))
        six (read_full-append bs (port_bytes (pos port) ++ rest) e w))
    ∙ read_port-bytes e (ips.show bs) rest port w h

read_name :
    (ips : Ips) (name rest : Bytes) (port : ℕ) (e : Refusal) (w : Wire)
    → port < 65536
    → read_socks_addr ips 3 e
        (record w { recv = length name ∷ (name ++ (port_bytes (pos port) ++ rest)) })
      ≡ (returned (name, port), record w { recv = rest })
unfolding read_socks_addr read_byte
read_name ips name rest port e w h =
    rw (read_full-append name (port_bytes (pos port) ++ rest) e w)
      (read_port-bytes e name rest port w h)

-- The request's address is read back with the port behind it, whatever follows.
read_socks_addr-address :
    (ips : Ips) (host rest : Bytes) (o : Option Ip) (port : ℕ) (w : Wire)
    → Fits host o
    → port < 65536
    → (read_request ips)
        (record w { recv = 5 ∷ 1 ∷ 0 ∷ (address_of host o ++ (port_bytes (pos port) ++ rest)) })
      ≡ (returned (shown ips host o, port), record w { recv = rest })
unfolding read_byte
read_socks_addr-address ips host rest none port w f h = read_name ips host rest port (reply 4) w h
read_socks_addr-address ips host rest (some (v4 a b c d)) port w f h =
    unfold read_socks_addr in
    read_port-bytes (reply 4) (ips.show (a ∷ b ∷ c ∷ d ∷ [])) rest port w h
read_socks_addr-address ips host rest (some (v6 bs)) port w f h =
    read_v6 ips bs rest port (reply 4) w f h

-- What the client sends in all.
abbrev spoken : Bytes → Option Ip → ℕ → Bytes
spoken host o port = (5 ∷ 1 ∷ 0 ∷ []) ++ ((5 ∷ 1 ∷ 0 ∷ address_of host o) ++ port_bytes (pos port))

client_run :
    (ips : Ips) (host rest : Bytes) (o : Option Ip) (port k : ℕ)
    → ips.parse host ≡ o
    → Fits host o
    → connect_socks5 ips host (pos port) (record {
      recv = (5 ∷ 0 ∷ []) ++ (success_reply ++ rest);
      sent = [];
      writes_left = suc (suc k);
      closed = false;
    })
      ≡ (
        returned tt,
        record { recv = rest; sent = spoken host o port; writes_left = k; closed = false },
      )
unfolding connect_socks5
client_run ips host rest o port k e f = rw (address_bytes-Fits ips host o e f) refl

negotiate_open :
    (auth : ProxyAuth) (k : ℕ) (v : Wire)
    → auth.enabled ≡ false
    → negotiate auth (0 ∷ []) (record v { writes_left = suc k })
      ≡ (returned tt, record v { sent = v.sent ++ 5 ∷ 0 ∷ []; writes_left = k })
unfolding contains_method write
negotiate_open auth k v off = simp off refl

server_run :
    (ips : Ips) (auth : ProxyAuth) (host rest : Bytes) (o : Option Ip) (port k : ℕ) (w : Wire)
    → auth.enabled ≡ false
    → Fits host o
    → port < 65536
    → handshake ips auth (record w { recv = spoken host o port ++ rest; writes_left = suc k }) ≡ (
      returned (shown ips host o, port),
      record w { recv = rest; sent = w.sent ++ 5 ∷ 0 ∷ []; writes_left = k },
    )
unfolding handshake
server_run ips auth host rest o port k w off f h =
    let asked : Bytes = 5 ∷ 1 ∷ 0 ∷ ((address_of host o ++ port_bytes (pos port)) ++ rest) in
    ap (then_on (λ _. read_request ips)) (negotiate_open auth k (record w { recv = asked }) off)
    ∙ ap
        (λ (s : Bytes).
          (read_request ips)
            (record w { recv = 5 ∷ 1 ∷ 0 ∷ s; sent = w.sent ++ 5 ∷ 0 ∷ []; writes_left = k }))
        (append_assoc (address_of host o) (port_bytes (pos port)) rest)
    ∙ read_socks_addr-address ips host rest o port
        (record w { sent = w.sent ++ 5 ∷ 0 ∷ []; writes_left = k }) f h

-- The SOCKS5 client and server of the program understand each other. When the server's replies come
-- in, the client sends its request, takes exactly the two replies from the stream and leaves it open;
-- and a server that wants no authentication reads from what the client sent the host and the port
-- that were asked for, and leaves whatever follows. A name arrives as it is, an address in the
-- notation of net.IP.
pub connect_socks5-handshake :
    (ips : Ips) (auth : ProxyAuth) (host more rest : Bytes) (port j k : ℕ)
    → auth.enabled ≡ false
    → Fits host (ips.parse host)
    → port < 65536
    → (c : Wire) × (connect_socks5 ips host (pos port) (record {
      recv = (5 ∷ 0 ∷ []) ++ (success_reply ++ more);
      sent = [];
      writes_left = suc (suc j);
      closed = false;
    })
        ≡ (returned tt, c))
      × (c.recv ≡ more)
      × (c.closed ≡ false)
      × (handshake ips auth
            (record { recv = c.sent ++ rest; sent = []; writes_left = suc k; closed = false })
          ≡ (
            returned (shown ips host (ips.parse host), port),
            record { recv = rest; sent = 5 ∷ 0 ∷ []; writes_left = k; closed = false },
          ))
connect_socks5-handshake ips auth host more rest port j k off f h = (
  record { recv = more; sent = spoken host (ips.parse host) port; writes_left = j; closed = false },
  client_run ips host more (ips.parse host) port j refl f,
  refl,
  refl,
  server_run ips auth host rest (ips.parse host) port k
      (record { recv = []; sent = []; writes_left = k; closed = false }) off f h,
)
