-- ===== src/Proxy/Dial/Slots.antt =====
-- The slots after the calls of a lease, for tunnel.go.
use go_multi_warp.Prelude.{
  ℕ, zero, suc, ℤ, pos, negsuc, add32, IsInt32, to_int32, ◌≡◌, refl, sym, ap, ◌∙◌, List, [], ◌∷◌,
  some, Bytes, arith, get_elem?, set,
}
use mathlib.Core.Path.{ap₂}
use go_multi_warp.Pool.Backend.{Backend, mark_success, mark_failure, release}
use go_multi_warp.Pool.Registry.{Pool, modify, lease_success, lease_failure, lease_release}
use go_multi_warp.Pool.Select.Polls.{inflights}

pub inflights-modify :
    (f : Backend → Backend) (i : ℕ) (bs : List Backend)
    → ((b : Backend) → (f b).inflight ≡ b.inflight)
    → inflights (modify i f bs) ≡ inflights bs
unfolding modify
inflights-modify f i [] h = refl
inflights-modify f zero (b ∷ bs) h = ap (λ n. n ∷ inflights bs) (h b)
inflights-modify f (suc i) (b ∷ bs) h = ap (◌∷◌ b.inflight) (inflights-modify f i bs h)

pub inflights-lease_success :
    (now i : ℕ) (p : Pool) → inflights (lease_success now i p).backends ≡ inflights p.backends
unfolding lease_success
inflights-lease_success now i p =
    inflights-modify (mark_success now) i p.backends (λ b. unfold mark_success in refl)

pub inflights-lease_failure :
    (now i : ℕ) (e : Bytes) (p : Pool)
    → inflights (lease_failure now e i p).backends ≡ inflights p.backends
unfolding lease_failure
inflights-lease_failure now i e p =
    inflights-modify (mark_failure now e) i p.backends (λ b. unfold mark_failure in ground arith)

-- Adding one and taking it off again, with or without a wrap.
back : (n : ℤ) → IsInt32 n → add32 (add32 n (pos 1)) (negsuc 0) ≡ n
unfolding to_int32
back n w = ground arith

-- A slot that is released after it was taken leaves the counts as they were.
inflights-release :
    (i : ℕ) (ns : List ℤ) (bs : List Backend) (n : ℤ)
    → get_elem? ns i ≡ some n
    → IsInt32 n
    → inflights bs ≡ set ns i (add32 n (pos 1))
    → inflights (modify i release bs) ≡ ns
unfolding modify release
inflights-release i [] bs n at w e = absurd (cc)
inflights-release zero (m ∷ ns) [] n at w e = absurd (cc)
inflights-release (suc i) (m ∷ ns) [] n at w e = absurd (cc)
inflights-release zero (m ∷ ns) (b ∷ bs) n at w e =
    let taken : b.inflight ≡ add32 n (pos 1) = cc in
    let rest : inflights bs ≡ ns = cc in
    let same : m ≡ n = ground arith in
    ap₂ ◌∷◌ (ap (λ x. add32 x (negsuc 0)) taken ∙ back n w ∙ sym same) rest
inflights-release (suc i) (m ∷ ns) (b ∷ bs) n at w e =
    let first : b.inflight ≡ m = cc in
    let rest : inflights bs ≡ set ns i (add32 n (pos 1)) = cc in
    ap₂ ◌∷◌ first (inflights-release i ns bs n at w rest)

pub inflights-lease_release :
    (i : ℕ) (ns : List ℤ) (p : Pool) (n : ℤ)
    → get_elem? ns i ≡ some n
    → IsInt32 n
    → inflights p.backends ≡ set ns i (add32 n (pos 1))
    → inflights (lease_release i p).backends ≡ ns
unfolding lease_release
inflights-lease_release i ns p n at w e = inflights-release i ns p.backends n at w e
