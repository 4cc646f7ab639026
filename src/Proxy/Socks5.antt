-- ===== src/Proxy/Socks5.antt =====
-- The SOCKS5 of internal/proxy: the client of tunnel.go, connectSOCKS5, and the server of socks5.go up to
-- the address that a peer asks for. net.ParseIP and net.IP's String are the parameter `ips`.
pub mod RoundTrip
pub mod Granted
use go_multi_warp.Prelude.{
  ℕ, zero, suc, ◌+◌, ◌*◌, ◌/◌, ◌%◌, ℤ, pos, negsuc, ltb, ◌==◌, Bool, true, false, not, ◌&&◌, ◌||◌,
  List, [], ◌∷◌, ◌++◌, Option, none, some, Bytes, length, uint16, if◌then◌else◌,
}
use go_multi_warp.Proxy.Auth.{ProxyAuth, AuthResult, passed, check}
use go_multi_warp.Proxy.Wire.{
  Wire, Ended, failed, returned, Session, then_on, ◌>>=◌, ◌>>◌, return, fail, require, read_byte,
  read_full, write, closing,
}

-- An address that net.ParseIP reads: its To4, or its To16.
pub data Ip : Type 0 where
  v4 : ℕ → ℕ → ℕ → ℕ → Ip
  v6 : Bytes → Ip

pub record Ips : Type 0 where
  pub parse : Bytes → Option Ip
  pub show : Bytes → Bytes  -- net.IP(b).String()

pub data ClientError : Type 0 where
  greeting_unsent no_method hostname_too_long request_unsent no_response no_bind_length no_bind :
      ClientError
  method_rejected bad_version bad_status unknown_atyp : ℕ → ClientError

-- binary.Write of a uint16, with the high byte first
abbrev pub port_bytes : ℤ → Bytes
port_bytes port = uint16 port / 256 ∷ uint16 port % 256 ∷ []

unfoldable pub address_bytes : Ips → Bytes → Option Bytes
address_bytes ips host = elim (ips.parse host) [
  | none ↦ if ltb 255 (length host) then none else some (3 ∷ length host ∷ host)
  | some (v4 a b c d) ↦ some (1 ∷ a ∷ b ∷ c ∷ d ∷ [])
  | some (v6 bs) ↦ some (4 ∷ bs)
]

abbrev send_request : Option Bytes → ℤ → Session ClientError (Unit {0})
send_request none port = fail hostname_too_long
send_request (some address) port = write ((5 ∷ 1 ∷ 0 ∷ address) ++ port_bytes port) request_unsent

-- The bind address is read and dropped.
abbrev drain_bind : ℕ → Session ClientError (Unit {0})
drain_bind atyp =
    if atyp == 1
    then (read_full 6 no_bind >>= λ _. return tt)
    else if atyp == 3
    then (read_byte no_bind_length >>= λ n. read_full (n + 2) no_bind >>= λ _. return tt)
    else if atyp == 4
    then (read_full 18 no_bind >>= λ _. return tt)
    else fail (unknown_atyp atyp)

-- connectSOCKS5, after the connection to the backend.
abbrev client : Ips → Bytes → ℤ → Session ClientError (Unit {0})
client ips host port = do
  write (5 ∷ 1 ∷ 0 ∷ []) greeting_unsent
  version ← read_byte no_method
  method ← read_byte no_method
  require (version == 5 && method == 0) (method_rejected method)
  send_request (address_bytes ips host) port
  reply_version ← read_byte no_response
  status ← read_byte no_response
  reserved ← read_byte no_response
  atyp ← read_byte no_response
  require (reply_version == 5) (bad_version reply_version)
  require (status == 0) (bad_status status)
  drain_bind atyp

unfoldable pub connect_socks5 : Ips → Bytes → ℤ → Session ClientError (Unit {0})
unfolding address_bytes read_full write read_byte closing
connect_socks5 ips host port = closing (client ips host port)

-- How the server ends a session early: with no word, or with the reply of this code.
pub data Refusal : Type 0 where
  hang_up : Refusal
  reply : ℕ → Refusal

-- The reply of handle to a connection that was made.
abbrev pub success_reply : Bytes
success_reply = 5 ∷ 0 ∷ 0 ∷ 1 ∷ 0 ∷ 0 ∷ 0 ∷ 0 ∷ 0 ∷ 0 ∷ []

abbrev read_port : {E : Type 0} → E → Bytes → Session E (Bytes × ℕ)
read_port e host = do high ← read_byte e; low ← read_byte e; return (host, high * 256 + low)

-- readSocksAddr of tunnel.go, whose errors are all alike to the server.
unfoldable pub read_socks_addr : {E : Type 0} → Ips → ℕ → E → Session E (Bytes × ℕ)
unfolding read_full read_byte
read_socks_addr ips atyp e =
    if atyp == 1
    then (read_full 4 e >>= λ b. read_port e (ips.show b))
    else if atyp == 3
    then (read_byte e >>= λ n. read_full n e >>= λ name. read_port e name)
    else if atyp == 4
    then (read_full 16 e >>= λ b. read_port e (ips.show b))
    else fail e

unfoldable pub contains_method : Bytes → ℕ → Bool
contains_method [] m = false
contains_method (v ∷ vs) m = v == m || contains_method vs m

abbrev pub is_passed : AuthResult → Bool
is_passed passed = true
is_passed _ = false

-- The authentication of the username and password method.
abbrev pub read_credentials : ProxyAuth → Session Refusal (Unit {0})
read_credentials auth = do
  version ← read_byte hang_up
  user_length ← read_byte hang_up
  user ← read_full user_length hang_up
  pass_length ← read_byte hang_up
  pass ← read_full pass_length hang_up
  require (is_passed (check user pass auth)) (reply 1)
  write (1 ∷ 0 ∷ []) hang_up

abbrev pub negotiate : ProxyAuth → Bytes → Session Refusal (Unit {0})
negotiate auth methods =
    if auth.enabled
    then (require (contains_method methods 2) (reply 255)
        >> (write (5 ∷ 2 ∷ []) hang_up >> read_credentials auth))
    else (require (contains_method methods 0) (reply 255) >> write (5 ∷ 0 ∷ []) hang_up)

abbrev pub read_request : Ips → Session Refusal (Bytes × ℕ)
read_request ips = do
  version ← read_byte hang_up
  command ← read_byte hang_up
  reserved ← read_byte hang_up
  atyp ← read_byte hang_up
  require (version == 5) hang_up
  require (command == 1) (reply 7)
  read_socks_addr ips atyp (reply 4)

-- The server's handle from the greeting to the address asked for.
unfoldable pub handshake : Ips → ProxyAuth → Session Refusal (Bytes × ℕ)
unfolding read_socks_addr contains_method read_full read_byte write
handshake ips auth = do
  version ← read_byte hang_up
  count ← read_byte hang_up
  require (version == 5) hang_up
  methods ← read_full count hang_up
  negotiate auth methods
  read_request ips
