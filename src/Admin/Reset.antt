-- ===== src/Admin/Reset.antt =====
-- internal/admin/admin.go: a POST to /v1/reconnect/ with the id of a backend.
use go_multi_warp.Prelude.{
  ℕ, zero, suc, ==ℤ_iff, IsInt64, ◌≡◌, refl, ap, true, List, [], ◌∷◌, ◌++◌, some, Bytes, length,
  get_elem?, arith, if◌then◌else◌,
}
use go_multi_warp.Std.{itoa}
use go_multi_warp.Std.Decimal.{atoi-itoa}
use go_multi_warp.Pool.Backend.{Backend, unknown, force_state}
use go_multi_warp.Pool.Registry.{get, pool_force_state}
use go_multi_warp.Pool.Registry.Index.{get_elem?-modify}
use go_multi_warp.Proxy.Auth.{drop}
use go_multi_warp.Proxy.Serve.{ProxyState}
use go_multi_warp.Admin.{reset_state, has_id, reconnect_path, reconnect}

drop-append : (s t : Bytes) → drop (length s) (s ++ t) ≡ t
unfolding drop
drop-append [] t = refl
drop-append (c ∷ s) t = drop-append s t

has_id-get :
    (bs : List Backend) (i : ℕ) (b : Backend) → get_elem? bs i ≡ some b → has_id b.id bs ≡ true
unfolding has_id
has_id-get [] i b e = absurd (cc)
has_id-get (c ∷ bs) zero b e =
    let same : c ≡ b = ground arith in
    let at : c.id ≡ b.id = ap (λ d. d.id) same in ground (arith, (==ℤ_iff c.id b.id).1 at)
has_id-get (c ∷ bs) (suc i) b e = let rest = has_id-get bs i b e in ground arith

-- A POST to /v1/reconnect/ with the id of a backend, in decimal, is answered with that id; the backend that
-- the index has for the id is forced into the unknown state, and the limiter stays as it was.
reconnect-itoa :
    (now i : ℕ) (b : Backend) (st : ProxyState)
    → IsInt64 b.id
    → get_elem? st.pool.backends i ≡ some b
    → get b.id st.pool ≡ some i
    → ((reconnect true (reconnect_path ++ itoa b.id) now st).1 ≡ reset_state b.id)
      × (get_elem? (reconnect true (reconnect_path ++ itoa b.id) now st).0.pool.backends i
          ≡ some (force_state now unknown b))
      × ((reconnect true (reconnect_path ++ itoa b.id) now st).0.limiter ≡ st.limiter)
unfolding reconnect pool_force_state
reconnect-itoa now i b st r e g =
    let path = drop-append reconnect_path (itoa b.id) in
    let id = atoi-itoa b.id r in
    let there = has_id-get st.pool.backends i b e in
    rw (path, id, there, if◌then◌else◌, g)
      (refl, get_elem?-modify i (force_state now unknown) st.pool.backends b e, refl)
