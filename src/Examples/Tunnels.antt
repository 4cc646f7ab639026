-- ===== src/Examples/Tunnels.antt =====
-- What passes through a listener of internal/proxy, and the probe of an address.
use go_multi_warp.Prelude.{
  pos, ◌≡◌, refl, true, false, List, [], ◌∷◌, ◌++◌, Option, some, Bytes, codes, arith, bytes_eq,
  ◌==◌, if◌then◌else◌,
}
use go_multi_warp.Std.{trim_space, cut_prefix, cut}
use go_multi_warp.Std.Split.{has_byte}
use go_multi_warp.Proxy.Http.Forward.{
  Outgoing, forward, values, request_uri, query_of, values-forward, request_uri-forward,
}
use go_multi_warp.Proxy.Tunnel.{
  idle_timeout, close_time, Arrival, piece, finish, finished, timed_out, copy_from,
  copy_bidirectional,
}
use go_multi_warp.Proxy.Tunnel.Copies.{
  arrived, StartsWith, EndsBy, copy_bidirectional-StartsWith, copy_bidirectional-silent,
}
use go_multi_warp.Control.Uniqueness.Probe.{
  page, json, read_ip, probe_egress, probe_egress-json, after_first,
}

abbrev asked : Outgoing
asked = record {
  host = codes "example.org";
  scheme = codes "http";
  opaque = [];
  path = codes "/a";
  force_query = false;
  raw_query = codes "q=1";
  headers =
      (codes "Accept", codes "*/*")
      ∷ (codes "Proxy-Authorization", codes "Basic dTpw")
      ∷ (codes "Connection", codes "keep-alive")
      ∷ [];
}

abbrev url : Bytes
url = codes "http://example.org/a?q=1"

values-forward_example :
    (values (codes "Proxy-Authorization") (forward url asked).headers ≡ [])
    × (values (codes "Proxy-Connection") (forward url asked).headers ≡ [])
    × (values (codes "Connection") (forward url asked).headers ≡ codes "close" ∷ [])
    × (values (codes "Accept") (forward url asked).headers ≡ values (codes "Accept") asked.headers)
unfolding bytes_eq
values-forward_example = values-forward url asked (codes "Accept") refl refl refl

-- The escaping of a question mark, and nothing else.
unfoldable escape : Bytes → Bytes
escape [] = []
escape (c ∷ cs) = let rest = escape cs in if c == b'?' then b'%' ∷ b'3' ∷ b'F' ∷ rest else c ∷ rest

escape_none : (s : Bytes) → has_byte b'?' (escape s) ≡ false
unfolding escape has_byte
escape_none [] = refl
escape_none (c ∷ cs) = ground (arith, escape_none cs)

request_uri-forward_example :
    ((forward (codes "http://" ++ (codes "example.org" ++ b'/' ∷ codes "a?q=1")) asked).path
      ≡ b'/' ∷ codes "a?q=1")
    × (query_of (
          request_uri escape
            (forward (codes "http://" ++ (codes "example.org" ++ b'/' ∷ codes "a?q=1")) asked))
        ≡ [])
unfolding has_byte
request_uri-forward_example =
    request_uri-forward escape (codes "example.org") (codes "a?q=1") asked refl refl escape_none

-- The URL http://example.org/p? of a client.
forced_run :
    request_uri escape (
      forward (codes "http://example.org/p?") (record asked { force_query = true; raw_query = [] }))
    ≡ codes "/p%3F?"
unfolding request_uri escape forward cut cut_prefix
forced_run = refl

forward_run : request_uri escape (forward url asked) ≡ codes "/a%3Fq=1"
unfolding request_uri escape forward cut cut_prefix
forward_run = refl

-- Two pieces, ten seconds apart, and the end.
abbrev download : List Arrival
download =
    piece 10000000000 (codes "ab") 1000 2
    ∷ piece 10000000000 (codes "c") 1000 1
    ∷ finish 10000000000
    ∷ []

copy_bidirectional-StartsWith_example :
    let r = copy_bidirectional (pos 60000000000) true (pos 15000000000) [] download in
    StartsWith (arrived download) r.0.sent
    × StartsWith (arrived []) r.1.sent
    × EndsBy (close_time true (pos 15000000000)) r.0.at
    × EndsBy (close_time true (pos 15000000000)) r.1.at
copy_bidirectional-StartsWith_example =
    copy_bidirectional-StartsWith (pos 60000000000) true (pos 15000000000) [] download

-- The cap of fifteen seconds cuts the second piece off.
capped :
    (copy_bidirectional (pos 60000000000) true (pos 15000000000) [] download).0.sent ≡ codes "ab"
unfolding copy_bidirectional copy_from close_time idle_timeout
capped = refl

-- With twenty seconds of patience the client is given up while the answer is on its way.
copy_bidirectional-silent_example :
    let r = copy_bidirectional (pos 20000000000) false (pos 0) [] download in
    (r.0.sent ≡ arrived download)
    × (r.0.reason ≡ finished)
    × (r.1.reason ≡ timed_out)
    × (r.1.at ≡ idle_timeout (pos 20000000000) false)
unfolding close_time idle_timeout
copy_bidirectional-silent_example =
    copy_bidirectional-silent (pos 20000000000) false (pos 0) download refl
      (omega arith, omega arith, (omega arith, omega arith, omega arith))

parse : Bytes → Option Bytes
parse s = some s

probe_egress-json_example :
    (probe_egress parse (page (json (codes "1.2.3.4"))) ≡ parse (codes "1.2.3.4"))
    × (probe_egress parse (page (codes "1.2.3.4")) ≡ parse (codes "1.2.3.4"))
unfolding has_byte cut_prefix trim_space
probe_egress-json_example = probe_egress-json parse (codes "1.2.3.4") refl refl refl (omega arith)

read_run : read_ip (codes " { \"ip\" : \"::1\" } \n") ≡ codes "::1"
unfolding read_ip after_first cut cut_prefix trim_space
read_run = refl
