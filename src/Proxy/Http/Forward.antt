-- ===== src/Proxy/Http/Forward.antt =====
-- internal/proxy/http_proxy.go: the request that handlePlain sends on. The client's URL is what its String
-- gives; a header is a name in net/http's canonical form with a value.
use go_multi_warp.Prelude.{
  ◌≡◌, refl, ap, ◌∙◌, Bool, true, false, not, ◌||◌, List, [], ◌∷◌, ◌++◌, Option, none, some, Bytes,
  codes, bytes_eq, bytes_eq_iff, is_empty, arith, if◌then◌else◌, Bool-cases, inl, inr, append-nil,
}
use go_multi_warp.Std.{cut, cut_prefix, has_prefix}
use go_multi_warp.Std.Split.{has_byte, cut-append, cut-none}

-- The Host, the fields of the URL, and the headers.
pub record Outgoing : Type 0 where
  pub host : Bytes
  pub scheme : Bytes
  pub opaque : Bytes
  pub path : Bytes
  pub force_query : Bool
  pub raw_query : Bytes
  pub headers : List (Bytes × Bytes)

-- Header.Del
unfoldable pub delete_header : Bytes → List (Bytes × Bytes) → List (Bytes × Bytes)
delete_header name [] = []
delete_header name ((k, v) ∷ hs) =
    let rest = delete_header name hs in if bytes_eq k name then rest else (k, v) ∷ rest

-- Header.Set
abbrev pub set_header : Bytes → Bytes → List (Bytes × Bytes) → List (Bytes × Bytes)
set_header name value hs = (name, value) ∷ delete_header name hs

abbrev pub rewrite_rest : Bytes → Option (Bytes × Bytes) → Outgoing → Outgoing
rewrite_rest rest none o = record o { path = codes "/"; host = rest }
rewrite_rest rest (some (hostport, path)) o = record o {
  path = b'/' ∷ path;
  raw_query = [];
  host = hostport;
}

-- The first half of handlePlain: an absolute URL is made one of the origin.
abbrev pub rewrite_url : Option Bytes → Outgoing → Outgoing
rewrite_url none o = o
rewrite_url (some rest) o = rewrite_rest rest (cut b'/' rest) o

abbrev pub strip_headers : List (Bytes × Bytes) → List (Bytes × Bytes)
strip_headers hs =
    set_header (codes "Connection") (codes "close")
      (delete_header (codes "Proxy-Connection") (delete_header (codes "Proxy-Authorization") hs))

unfoldable pub forward : Bytes → Outgoing → Outgoing
unfolding delete_header
forward url o =
    let r = rewrite_url (cut_prefix url (codes "http://")) o in
    record r { headers = strip_headers r.headers }

abbrev pub or_slash : Bytes → Bytes
or_slash s = if is_empty s then codes "/" else s

abbrev pub with_scheme : Bytes → Bytes → Bytes
with_scheme scheme opaque =
    if has_prefix (codes "//") opaque then scheme ++ (codes ":" ++ opaque) else opaque

-- URL.RequestURI, which req.Write puts on the request line; `escape` is net/url's escaping of a path.
unfoldable pub request_uri : (Bytes → Bytes) → Outgoing → Bytes
request_uri escape o =
    (if is_empty o.opaque then or_slash (escape o.path) else with_scheme o.scheme o.opaque)
    ++ (if o.force_query || not (is_empty o.raw_query) then b'?' ∷ o.raw_query else [])

abbrev pub after_cut : Option (Bytes × Bytes) → Bytes
after_cut none = []
after_cut (some (before, query)) = query

-- The query that a request line carries: what follows its first question mark.
unfoldable pub query_of : Bytes → Bytes
query_of uri = after_cut (cut b'?' uri)

-- The values of a header, in order.
unfoldable pub values : Bytes → List (Bytes × Bytes) → List Bytes
values name [] = []
values name ((k, v) ∷ hs) = let rest = values name hs in if bytes_eq k name then v ∷ rest else rest

values_deleted :
    (name : Bytes) (hs : List (Bytes × Bytes)) → values name (delete_header name hs) ≡ []
unfolding values delete_header
values_deleted name [] = refl
values_deleted name ((k, v) ∷ hs) = ground (arith, values_deleted name hs)

values_kept :
    (name other : Bytes) (hs : List (Bytes × Bytes))
    → bytes_eq other name ≡ false
    → values name (delete_header other hs) ≡ values name hs
unfolding values delete_header
values_kept name other [] h = refl
values_kept name other ((k, v) ∷ hs) h = elim (Bool-cases (bytes_eq k other)) [
  | inl e ↦
      let same : k ≡ other = (bytes_eq_iff k other).0 e in
      let differs : bytes_eq k name ≡ false = ap (λ x. bytes_eq x name) same ∙ h in
      rw (e, if◌then◌else◌, differs, if◌then◌else◌) (values_kept name other hs h)
  | inr e ↦
      rw (e, if◌then◌else◌)
        (ap (λ vs. if bytes_eq k name then v ∷ vs else vs) (values_kept name other hs h))
]

headers-rewrite_url : (x : Option Bytes) (o : Outgoing) → (rewrite_url x o).headers ≡ o.headers
headers-rewrite_url none o = refl
headers-rewrite_url (some rest) o = by_slash (cut b'/' rest)
  where
    by_slash : (x : Option (Bytes × Bytes)) → (rewrite_rest rest x o).headers ≡ o.headers
    by_slash none = refl
    by_slash (some (hostport, path)) = refl

values_stripped :
    (hs : List (Bytes × Bytes))
    → (values (codes "Proxy-Authorization") (strip_headers hs) ≡ [])
      × (values (codes "Proxy-Connection") (strip_headers hs) ≡ [])
      × (values (codes "Connection") (strip_headers hs) ≡ codes "close" ∷ [])
unfolding values delete_header bytes_eq
values_stripped hs =
    let authorization = codes "Proxy-Authorization" in
    let connection = codes "Proxy-Connection" in
    let without = delete_header authorization hs in
    (
      values_kept authorization (codes "Connection") (delete_header connection without) refl
          ∙ (values_kept authorization connection without refl ∙ values_deleted authorization hs),
      values_kept connection (codes "Connection") (delete_header connection without) refl
          ∙ values_deleted connection without,
      ap (◌∷◌ (codes "close"))
          (values_deleted (codes "Connection") (delete_header connection without)),
    )

values_others :
    (hs : List (Bytes × Bytes)) (name : Bytes)
    → bytes_eq (codes "Connection") name ≡ false
    → bytes_eq (codes "Proxy-Connection") name ≡ false
    → bytes_eq (codes "Proxy-Authorization") name ≡ false
    → values name (strip_headers hs) ≡ values name hs
unfolding values
values_others hs name c p a =
    rw (c, if◌then◌else◌)
      (values_kept name (codes "Connection") _ c
        ∙ (values_kept name (codes "Proxy-Connection") _ p
            ∙ values_kept name (codes "Proxy-Authorization") hs a))

-- What handlePlain sends on, whatever the URL: no value of Proxy-Authorization or Proxy-Connection, the
-- one value "close" of Connection, and of every other header the values that the client sent.
pub values-forward :
    (url : Bytes) (o : Outgoing) (name : Bytes)
    → bytes_eq (codes "Connection") name ≡ false
    → bytes_eq (codes "Proxy-Connection") name ≡ false
    → bytes_eq (codes "Proxy-Authorization") name ≡ false
    → (values (codes "Proxy-Authorization") (forward url o).headers ≡ [])
      × (values (codes "Proxy-Connection") (forward url o).headers ≡ [])
      × (values (codes "Connection") (forward url o).headers ≡ codes "close" ∷ [])
      × (values name (forward url o).headers ≡ values name o.headers)
unfolding forward
values-forward url o name c p a =
    let hs = (rewrite_url (cut_prefix url (codes "http://")) o).headers in
    let (authorization, connection, closing) = values_stripped hs in
    (
      authorization,
      connection,
      closing,
      values_others hs name c p a
          ∙ ap (values name) (headers-rewrite_url (cut_prefix url (codes "http://")) o),
    )

query_of-append :
    (s : Bytes) (forced : Bool)
    → has_byte b'?' s ≡ false
    → query_of (s ++ (if forced then b'?' ∷ [] else [])) ≡ []
unfolding query_of
query_of-append s true h = rw (cut-append b'?' s [] h) refl
query_of-append s false h = rw (append-nil s, cut-none b'?' s h) refl

or_slash-has_byte : (s : Bytes) → has_byte b'?' s ≡ false → has_byte b'?' (or_slash s) ≡ false
unfolding has_byte
or_slash-has_byte [] h = refl
or_slash-has_byte (c ∷ s) h = h

-- A client's URL with a slash after the host, which net/url reads without an opaque part: all that follows
-- the host, the query included, becomes the path. So when net/url escapes each question mark of a
-- path, the query of the request line that is sent on is empty, whatever the client's was: there is no
-- question mark, or, where ForceQuery is set, nothing behind it.
pub request_uri-forward :
    (escape : Bytes → Bytes) (host tail : Bytes) (o : Outgoing)
    → has_byte b'/' host ≡ false
    → o.opaque ≡ []
    → ((s : Bytes) → has_byte b'?' (escape s) ≡ false)
    → ((forward (codes "http://" ++ (host ++ b'/' ∷ tail)) o).path ≡ b'/' ∷ tail)
      × (query_of (request_uri escape (forward (codes "http://" ++ (host ++ b'/' ∷ tail)) o)) ≡ [])
unfolding forward request_uri cut_prefix
request_uri-forward escape host tail o h plain e =
    rw (cut-append b'/' host tail h, plain)
      (
        refl,
        query_of-append (or_slash (escape (b'/' ∷ tail))) (o.force_query || false)
            (or_slash-has_byte (escape (b'/' ∷ tail)) (e (b'/' ∷ tail))),
      )
