-- ===== src/Config/Accepted.antt =====
-- What a configuration that config.go's Load returns can be relied on for.
use go_multi_warp.Prelude.{
  zero, suc, ◌<◌, ℤ, pos, negsuc, pos_part, subst, ◌<ℤ◌, ==ℤ_iff, ◌≡◌, ◌≢◌, refl, ◌⊎◌, inl, inr,
  true, false, List, [], ◌∷◌, Bytes, arith, is_empty, length, Bool-cases, if◌then◌else◌,
}
use go_multi_warp.Config.{Config, managed, local_addrs, backend_addrs}
use go_multi_warp.Config.Load.{
  System, Loaded, returned, failed, ◌>>=◌, ◌>>◌, validate, checked, load,
}
use go_multi_warp.Config.Env.{apply_env}

-- What Validate asks, said apart from its code.
pub record IsAccepted (sys : System) (c : Config) : Type 0 where
  pub some_backend : (pos 0 <ℤ c.instances) ⊎ (is_empty c.backends ≡ false)
  pub port : c.base_port ≢ pos 0
  pub platform : (c.mode ≢ managed) ⊎ (sys.windows ≡ false)
  pub org_auth :
      (is_empty c.control.org ≡ true)
      ⊎ ((is_empty c.control.auth_client_id ≡ false)
          × (is_empty c.control.auth_client_secret ≡ false)
          × (is_empty c.control.license_keys ≡ true))
  pub listens :
      (sys.resolves c.listen.socks5 ≡ true)
      × (sys.resolves c.listen.http ≡ true)
      × (sys.resolves c.listen.admin ≡ true)

-- Validate passes a configuration only if it is accepted.
validate-IsAccepted : (sys : System) (c : Config) → validate sys c ≡ returned tt → IsAccepted sys c
unfolding validate
validate-IsAccepted sys c h = ground (arith, ==ℤ_iff c.base_port (pos 0))

bind-returned :
    {A B : Type 0} (m : Loaded A) (next : A → Loaded B) {b : B}
    → (m >>= next) ≡ returned b
    → (a : A) × (next a ≡ returned b)
bind-returned (returned a) next h = (a, h)
bind-returned (failed e) next h = cc

pass :
    (r : Loaded (Unit {0})) (c d : Config)
    → (r >> returned c) ≡ returned d
    → (r ≡ returned tt) × (c ≡ d)
pass (returned tt) c d h = (refl, ground arith)
pass (failed e) c d h = cc

checked-IsAccepted : (sys : System) (c d : Config) → checked sys c ≡ returned d → IsAccepted sys d
unfolding checked
checked-IsAccepted sys c d h =
    let (passed, same) = pass (validate sys c) c d h in
    subst (IsAccepted sys) same (validate-IsAccepted sys c passed)

-- Every configuration that Load returns has been accepted after the environment's overrides: it has an
-- instance or a backend, a base port, listening addresses that resolve, no managed mode on Windows,
-- and an organisation only with credentials and without license keys.
pub load-IsAccepted :
    (sys : System) (path : Bytes) (c : Config) → load sys path ≡ returned c → IsAccepted sys c
unfolding load
load-IsAccepted sys path c h =
    let (read, e) = bind-returned _ (λ r. checked sys (apply_env sys.getenv r)) h in
    checked-IsAccepted sys (apply_env sys.getenv read) c e

nonempty {ℓ} : {A : Type ℓ} (xs : List A) → is_empty xs ≡ false → 0 < length xs
nonempty [] h = absurd (cc)
nonempty (x ∷ xs) h = omega arith

positive_instances : (n base : ℤ) → pos 0 <ℤ n → 0 < length (local_addrs base 0 (pos_part n))
unfolding local_addrs
positive_instances (pos zero) base h = h
positive_instances (pos (suc n)) base h = omega arith
positive_instances (negsuc n) base h = absurd (omega arith)

accepted_addrs : (sys : System) (c : Config) → IsAccepted sys c → 0 < length (backend_addrs c)
unfolding backend_addrs
accepted_addrs sys c a = elim (Bool-cases (is_empty c.backends)) [
  | inl e ↦ rw (e, if◌then◌else◌) (positive_instances c.instances c.base_port (ground arith))
  | inr e ↦ rw (e, if◌then◌else◌) (nonempty c.backends e)
]

-- So the pool of a loaded configuration has a backend to begin with.
length-backend_addrs-load :
    (sys : System) (path : Bytes) (c : Config)
    → load sys path ≡ returned c
    → 0 < length (backend_addrs c)
length-backend_addrs-load sys path c h = accepted_addrs sys c (load-IsAccepted sys path c h)
