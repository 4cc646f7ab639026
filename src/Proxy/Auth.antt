-- ===== src/Proxy/Auth.antt =====
-- internal/proxy/state.go: the credentials of the proxy. Base64 decoding is the parameter `decode`.
use go_multi_warp.Prelude.{
  ℕ, zero, suc, ◌≡◌, ◌↔◌, refl, sym, ap, ◌∙◌, inl, inr, Bool, true, false, not, ◌&&◌, [], ◌∷◌, ◌++◌,
  Option, none, some, Bytes, codes, bytes_eq, bytes_eq_iff, is_empty, arith, ◌==◌, ==_iff,
  if◌then◌else◌, Bool-cases,
}
use go_multi_warp.Std.{trim_space, to_lower, has_prefix, cut, cut_more}
use go_multi_warp.Std.Split.{has_byte}

pub record ProxyAuth : Type 0 where
  pub enabled : Bool
  pub username : Bytes
  pub password : Bytes

pub data AuthResult : Type 0 where
  passed auth_required auth_failed : AuthResult

unfoldable pub new_proxy_auth : Bytes → Bytes → ProxyAuth
new_proxy_auth user pass = record {
  enabled = not (is_empty user) && not (is_empty pass);
  username = user;
  password = pass;
}

unfoldable pub check : Bytes → Bytes → ProxyAuth → AuthResult
check user pass pa =
    if not pa.enabled
    then passed
    else if bytes_eq user pa.username && bytes_eq pass pa.password
    then passed
    else auth_failed

-- s[n:]
unfoldable pub drop : ℕ → Bytes → Bytes
drop zero s = s
drop (suc n) [] = []
drop (suc n) (c ∷ s) = drop n s

-- The user and the password of the decoded text.
abbrev check_pair : ProxyAuth → Option (Bytes × Bytes) → AuthResult
check_pair pa none = auth_failed
check_pair pa (some (u, p)) = check u p pa

abbrev check_decoded : ProxyAuth → Option Bytes → AuthResult
check_decoded pa none = auth_failed
check_decoded pa (some text) = check_pair pa (cut b':' text)

unfoldable pub check_http_header : (Bytes → Option Bytes) → Bytes → ProxyAuth → AuthResult
unfolding drop
check_http_header decode header pa =
    if not pa.enabled
    then passed
    else if is_empty header
    then auth_required
    else let h = trim_space header in
      if not (has_prefix (codes "basic ") (to_lower h))
      then auth_failed
      else check_decoded pa (decode (trim_space (drop 6 h)))

cut_more_sound :
    (c x : ℕ) (s u p : Bytes) (o : Option (Bytes × Bytes))
    → (x == c) ≡ false
    → ((v q : Bytes) → o ≡ some (v, q) → (s ≡ v ++ c ∷ q) × (has_byte c v ≡ false))
    → cut_more x o ≡ some (u, p)
    → (x ∷ s ≡ u ++ c ∷ p) × (has_byte c u ≡ false)
unfolding has_byte
cut_more_sound c x s u p none d rest e = absurd (cc)
cut_more_sound c x s u p (some (v, q)) d rest e =
    let (cut_here, clean) = rest v q refl in
    let whole : x ∷ s ≡ (x ∷ v) ++ c ∷ q = ap (◌∷◌ x) cut_here in
    let clear : has_byte c (x ∷ v) ≡ false = rw (d, clean) refl in
    let first : x ∷ v ≡ u = cc in
    let second : q ≡ p = cc in
    (
      whole ∙ ap (λ z. z ++ c ∷ q) first ∙ ap (λ z. u ++ c ∷ z) second,
      ap (has_byte c) (sym first) ∙ clear,
    )

cut_sound :
    (c : ℕ) (s u p : Bytes) → cut c s ≡ some (u, p) → (s ≡ u ++ c ∷ p) × (has_byte c u ≡ false)
unfolding cut has_byte
cut_sound c [] u p e = absurd (cc)
cut_sound c (x ∷ s) u p e = elim (Bool-cases (x == c)) [
  | inl t ↦
      let here : ◌≡◌ {A = Option (Bytes × Bytes)} (some ([], s)) (some (u, p)) =
        rw (t, if◌then◌else◌) at e in
      let same : x ≡ c = (==_iff x c).0 t in
      let first : [] ≡ u = cc in
      let second : s ≡ p = cc in
      (
        ap (λ z. z ∷ s) same ∙ ap (λ z. c ∷ z) second ∙ ap (λ z. z ++ c ∷ p) first,
        ap (has_byte c) (sym first),
      )
  | inr t ↦
      cut_more_sound c x s u p (cut c s) t (λ v q. cut_sound c s v q) (rw (t, if◌then◌else◌) at e)
]

cut_first : (c : ℕ) (u p : Bytes) → has_byte c u ≡ false → cut c (u ++ c ∷ p) ≡ some (u, p)
unfolding cut has_byte
cut_first c [] p h = rw ((==_iff c c).1 refl, if◌then◌else◌) refl
cut_first c (x ∷ u) p h =
    let d : (x == c) ≡ false = ground arith in
    rw (d, if◌then◌else◌, cut_first c u p (ground arith)) refl

-- The decoded text that passes: the user, a colon and the password.
decoded-passed :
    (user pass : Bytes) (o : Option Bytes)
    → is_empty user ≡ false
    → is_empty pass ≡ false
    → (check_decoded (new_proxy_auth user pass) o ≡ passed)
      ↔ ((o ≡ some (user ++ b':' ∷ pass)) × (has_byte b':' user ≡ false))
unfolding new_proxy_auth check
decoded-passed user pass none hu hp = (λ e. absurd (cc), λ e. absurd (cc))
decoded-passed user pass (some text) hu hp = (forth (cut b':' text) refl, back)
  where
    forth :
        (r : Option (Bytes × Bytes))
        → cut b':' text ≡ r
        → check_pair (new_proxy_auth user pass) r ≡ passed
        → (some text ≡ some (user ++ b':' ∷ pass)) × (has_byte b':' user ≡ false)
    forth none at e = absurd (cc)
    forth (some (u, p)) at e =
        let (whole, clear) = cut_sound b':' text u p at in
        let same_user : u ≡ user = ground (arith, (bytes_eq_iff u user).0) in
        let same_pass : p ≡ pass = ground (arith, (bytes_eq_iff p pass).0) in
        (
          ap some
              (whole ∙ ap (λ z. z ++ b':' ∷ p) same_user ∙ ap (λ z. user ++ b':' ∷ z) same_pass),
          ap (has_byte b':') (sym same_user) ∙ clear,
        )

    back :
        (some text ≡ some (user ++ b':' ∷ pass)) × (has_byte b':' user ≡ false)
        → check_decoded (new_proxy_auth user pass) (some text) ≡ passed
    back (e, clear) =
        let same : text ≡ user ++ b':' ∷ pass = cc in
        let parts : cut b':' text ≡ some (user, pass) =
          ap (cut b':') same ∙ cut_first b':' user pass clear in
        rw
          (
            parts,
            hu,
            hp,
            if◌then◌else◌,
            (bytes_eq_iff user user).1 refl,
            (bytes_eq_iff pass pass).1 refl,
          )
          refl

header_enabled :
    (decode : Bytes → Option Bytes) (header : Bytes) (pa : ProxyAuth)
    → is_empty header ≡ false
    → pa.enabled ≡ true
    → check_http_header decode header pa ≡ (
        if has_prefix (codes "basic ") (to_lower (trim_space header))
        then check_decoded pa (decode (trim_space (drop 6 (trim_space header))))
        else auth_failed)
unfolding check_http_header
header_enabled decode header pa hh on = simp (on, hh) (ground arith)

-- With credentials configured, a header that is not empty passes exactly if it starts with the word
-- Basic, in any case, what follows decodes to the user, a colon and the password, and the user's name
-- has no colon.
pub check_http_header-passed :
    (decode : Bytes → Option Bytes) (header user pass : Bytes)
    → is_empty header ≡ false
    → is_empty user ≡ false
    → is_empty pass ≡ false
    → (check_http_header decode header (new_proxy_auth user pass) ≡ passed) ↔ (
        (has_prefix (codes "basic ") (to_lower (trim_space header)) ≡ true)
        × (decode (trim_space (drop 6 (trim_space header))) ≡ some (user ++ b':' ∷ pass))
        × (has_byte b':' user ≡ false))
check_http_header-passed decode header user pass hh hu hp =
    let on : (new_proxy_auth user pass).enabled ≡ true =
      unfold new_proxy_auth in rw (hu, hp) refl in
    let text = decode (trim_space (drop 6 (trim_space header))) in
    let (forth, back) = decoded-passed user pass text hu hp in
    let whole = header_enabled decode header (new_proxy_auth user pass) hh on in
    elim (Bool-cases (has_prefix (codes "basic ") (to_lower (trim_space header)))) [
      | inl t ↦
          rw (whole, t, if◌then◌else◌)
            (λ e. let (a, b) = forth e in (refl, a, b), λ (x, a, b). back (a, b))
      | inr t ↦ rw (whole, t, if◌then◌else◌) (λ e. absurd (cc), λ e. absurd (cc))
    ]
