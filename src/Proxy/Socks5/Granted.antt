-- ===== src/Proxy/Socks5/Granted.antt =====
-- What a peer must have sent to the server of socks5.go before a target is taken from it.
use go_multi_warp.Prelude.{
  ℕ, zero, suc, ◌==◌, ==_iff, ◌≡◌, refl, sym, ap, ◌∙◌, ◌⊎◌, inl, inr, Bool, true, false, [], ◌∷◌,
  ◌++◌, Bytes, bytes_eq_iff, length, arith, Bool-cases,
}
use go_multi_warp.Proxy.Auth.{ProxyAuth, check}
use go_multi_warp.Proxy.Wire.{
  Wire, Ended, failed, returned, Session, then_on, ◌>>=◌, ◌>>◌, require, read_byte, read_full,
  write,
}
use go_multi_warp.Proxy.Wire.Reads.{Took, read_full-Took}
use go_multi_warp.Proxy.Socks5.{
  Ips, Refusal, hang_up, reply, contains_method, is_passed, read_credentials, negotiate,
  read_request, handshake,
}

-- The claim, if the session got that far.
abbrev pub OnReturned : {E A : Type 0} → Type 0 → Ended E A × Wire → Type 0
OnReturned P (failed e, w) = Unit {0}
OnReturned P (returned a, w) = P

known : {E A : Type 0} (P : Type 0) (r : Ended E A × Wire) → P → OnReturned P r
known P (failed e, w) p = tt
known P (returned a, w) p = p

then_on-OnReturned :
    {E A B : Type 0} (P : Type 0) (next : A → Session E B) (r : Ended E A × Wire)
    → OnReturned P r
    → OnReturned P (then_on next r)
then_on-OnReturned P next (failed e, w) p = tt
then_on-OnReturned P next (returned a, w) p = known P (next a w) p

-- The stream holds the user's name and the password, each behind its length.
abbrev pub Credentials : ProxyAuth → Bytes → Type 0
Credentials auth s =
    (version : ℕ) × (rest : Bytes) × (s
      ≡ version
        ∷ length auth.username
        ∷ (auth.username ++ length auth.password ∷ (auth.password ++ rest)))

-- What the peer offered and sent satisfies the server: the method without authentication where that is
-- enough, or the method with it and the credentials.
abbrev pub Authenticated : ProxyAuth → Bytes → Bytes → Type 0
Authenticated auth methods s =
    ((auth.enabled ≡ false) × (contains_method methods 0 ≡ true))
    ⊎ ((auth.enabled ≡ true) × (contains_method methods 2 ≡ true) × Credentials auth s)

check-passed :
    (user pass : Bytes) (auth : ProxyAuth)
    → auth.enabled ≡ true
    → is_passed (check user pass auth) ≡ true
    → (user ≡ auth.username) × (pass ≡ auth.password)
unfolding check
check-passed user pass auth on h =
    ground (arith, bytes_eq_iff user auth.username, bytes_eq_iff pass auth.password)

-- Two texts behind their lengths, from what was read of them.
framed :
    (version n m : ℕ) (user pass rest s x y : Bytes)
    → length user ≡ n
    → length pass ≡ m
    → s ≡ pass ++ rest
    → user ≡ x
    → pass ≡ y
    → ◌≡◌ {A = Bytes}
        (version ∷ n ∷ (user ++ m ∷ s))
        (version ∷ length x ∷ (x ++ length y ∷ (y ++ rest)))
framed version n m user pass rest s x y l k front u p =
    ap (λ (i : ℕ). version ∷ i ∷ (user ++ m ∷ s)) (sym l)
    ∙ ap (λ (i : ℕ). version ∷ length user ∷ (user ++ i ∷ s)) (sym k)
    ∙ ap (λ z. version ∷ length user ∷ (user ++ length pass ∷ z)) front
    ∙ ap (λ z. version ∷ length z ∷ (z ++ length pass ∷ (pass ++ rest))) u
    ∙ ap (λ z. version ∷ length x ∷ (x ++ length z ∷ (z ++ rest))) p

after_pass :
    (auth : ProxyAuth) (version n m : ℕ) (user s : Bytes) (r : Ended Refusal Bytes × Wire)
    (w : Wire)
    → auth.enabled ≡ true
    → length user ≡ n
    → Took m (record w { recv = s }) r
    → OnReturned (Credentials auth (version ∷ n ∷ (user ++ m ∷ s))) (
        then_on
          (λ pass.
            require (is_passed (check user pass auth)) (reply 1) >> write (1 ∷ 0 ∷ []) hang_up)
          r)
after_pass auth version n m user s (failed e, v) w on l t = tt
after_pass auth version n m user s (returned pass, v) w on l (k, front, same) =
    elim (Bool-cases (is_passed (check user pass auth))) [
      | inl ok ↦
          let (u, p) = check-passed user pass auth on ok in
          rw ok (
            known (Credentials auth (version ∷ n ∷ (user ++ m ∷ s))) (write (1 ∷ 0 ∷ []) hang_up v)
              (
                version,
                v.recv,
                framed version n m user pass v.recv s auth.username auth.password l k front u p,
              ))
      | inr bad ↦ rw bad tt
    ]

after_user :
    (auth : ProxyAuth) (version n : ℕ) (s : Bytes) (r : Ended Refusal Bytes × Wire) (w : Wire)
    → auth.enabled ≡ true
    → Took n (record w { recv = s }) r
    → OnReturned (Credentials auth (version ∷ n ∷ s)) (
        then_on
          (λ user. read_byte hang_up >>= λ m. read_full m hang_up >>= λ pass.
            require (is_passed (check user pass auth)) (reply 1) >> write (1 ∷ 0 ∷ []) hang_up)
          r)
unfolding read_byte
after_user auth version n s (failed e, v) w on t = tt
after_user auth version n s (returned user, v) w on (l, front, same) = by_rest v.recv front same
  where
    by_rest :
        (t : Bytes)
        → s ≡ user ++ t
        → v ≡ record w { recv = t }
        → OnReturned (Credentials auth (version ∷ n ∷ s)) (
            (read_byte hang_up >>= λ m. read_full m hang_up >>= λ pass.
            require (is_passed (check user pass auth)) (reply 1) >> write (1 ∷ 0 ∷ []) hang_up)
              v)
    by_rest [] f g = rw g tt
    by_rest (m ∷ t) f g =
        rw (g, f)
          (after_pass auth version n m user t (read_full m hang_up (record w { recv = t })) w on l
            (read_full-Took m hang_up t w))

read_credentials-Credentials :
    (auth : ProxyAuth) (s : Bytes) (w : Wire)
    → auth.enabled ≡ true
    → OnReturned (Credentials auth s) (read_credentials auth (record w { recv = s }))
unfolding read_byte
read_credentials-Credentials auth [] w on = tt
read_credentials-Credentials auth (version ∷ []) w on = tt
read_credentials-Credentials auth (version ∷ n ∷ s) w on =
    after_user auth version n s (read_full n hang_up (record w { recv = s })) w on
      (read_full-Took n hang_up s w)

OnReturned-mono :
    {E A : Type 0} (P Q : Type 0) (r : Ended E A × Wire) → (P → Q) → OnReturned P r → OnReturned Q r
OnReturned-mono P Q (failed e, w) f p = tt
OnReturned-mono P Q (returned a, w) f p = f p

abbrev auth_of : Bool → Bytes → Bytes → ProxyAuth
auth_of on username password = record { enabled = on; username = username; password = password }

abbrev wire_of : Bytes → Bytes → ℕ → Bool → Wire
wire_of s sent k closed = record { recv = s; sent = sent; writes_left = k; closed = closed }

required :
    {B : Type 0} (P : Type 0) (test : Bool) (e : Refusal) (next : Session Refusal B) (w : Wire)
    → (test ≡ true → OnReturned P (next w))
    → OnReturned P ((require test e >> next) w)
required P true e next w f = f refl
required P false e next w f = tt

negotiate_fields :
    (on : Bool) (username password methods s sent : Bytes) (k : ℕ) (closed : Bool)
    → OnReturned
        (Authenticated (auth_of on username password) methods s)
        (negotiate (auth_of on username password) methods (wire_of s sent k closed))
unfolding write
negotiate_fields false username password methods s sent k closed =
    let auth = auth_of false username password in
    required (Authenticated auth methods s) (contains_method methods 0) (reply 255)
      (write (5 ∷ 0 ∷ []) hang_up) (wire_of s sent k closed)
      (λ t.
        known (Authenticated auth methods s) (write (5 ∷ 0 ∷ []) hang_up (wire_of s sent k closed))
          (inl (refl, t)))
negotiate_fields true username password methods s sent k closed =
    let auth = auth_of true username password in
    required (Authenticated auth methods s) (contains_method methods 2) (reply 255)
      (write (5 ∷ 2 ∷ []) hang_up >> read_credentials auth) (wire_of s sent k closed)
      (λ t. by_writes k t)
  where
    by_writes :
        (j : ℕ)
        → contains_method methods 2 ≡ true
        → OnReturned (Authenticated (auth_of true username password) methods s) (
            (write (5 ∷ 2 ∷ []) hang_up >> read_credentials (auth_of true username password))
              (wire_of s sent j closed))
    by_writes zero t = tt
    by_writes (suc j) t =
        let auth = auth_of true username password in
        let v = wire_of s (sent ++ 5 ∷ 2 ∷ []) j closed in
        OnReturned-mono (Credentials auth s) (Authenticated auth methods s)
          (read_credentials auth v) (λ c. inr (refl, t, c))
          (read_credentials-Credentials auth s v refl)

-- What a peer sent from the start.
abbrev pub Greeted : ProxyAuth → Bytes → Type 0
Greeted auth s =
    (methods : Bytes) × (rest : Bytes) × (s ≡ 5 ∷ length methods ∷ (methods ++ rest))
    × Authenticated auth methods rest

after_methods :
    (ips : Ips) (auth : ProxyAuth) (a n : ℕ) (s : Bytes) (r : Ended Refusal Bytes × Wire) (w : Wire)
    → a ≡ 5
    → Took n (record w { recv = s }) r
    → OnReturned
        (Greeted auth (a ∷ n ∷ s))
        (then_on (λ methods. negotiate auth methods >> read_request ips) r)
after_methods ips auth a n s (failed e, v) w five t = tt
after_methods ips auth a n s (returned methods, v) w five (l, front, same) =
    let whole : ◌≡◌ {A = Bytes} (a ∷ n ∷ s) (5 ∷ length methods ∷ (methods ++ v.recv)) =
      ap (λ (i : ℕ). i ∷ n ∷ s) five
      ∙ ap (λ (i : ℕ). 5 ∷ i ∷ s) (sym l)
      ∙ ap (λ z. 5 ∷ length methods ∷ z) front in
    then_on-OnReturned (Greeted auth (a ∷ n ∷ s)) (λ _. read_request ips) (negotiate auth methods v)
      (OnReturned-mono (Authenticated auth methods v.recv) (Greeted auth (a ∷ n ∷ s))
        (negotiate auth methods v) (λ g. (methods, v.recv, whole, g))
        (negotiate_fields auth.enabled auth.username auth.password methods v.recv v.sent
          v.writes_left v.closed))

-- The server takes a target from a peer only if the peer greeted with version 5 and, where no
-- credentials are configured, offered the method without authentication; where they are, offered the
-- method with it and sent exactly the configured name and password. No other stream gets that far.
pub handshake-Greeted :
    (ips : Ips) (auth : ProxyAuth) (s : Bytes) (w : Wire)
    → OnReturned (Greeted auth s) (handshake ips auth (record w { recv = s }))
unfolding handshake
handshake-Greeted ips auth [] w = tt
handshake-Greeted ips auth (a ∷ []) w = tt
handshake-Greeted ips auth (a ∷ n ∷ s) w = elim (Bool-cases (a == 5)) [
  | inl t ↦ rw t (
      after_methods ips auth a n s (read_full n hang_up (record w { recv = s })) w
        ((==_iff a 5).0 t) (read_full-Took n hang_up s w))
  | inr t ↦ rw t tt
]
