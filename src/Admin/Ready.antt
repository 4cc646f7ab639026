-- ===== src/Admin/Ready.antt =====
-- internal/admin/admin.go: healthz and readyz agree.
use go_multi_warp.Prelude.{
  ℕ, suc, ◌≤◌, ◌==◌, ltb, ◌||◌, ◌≡◌, ◌↔◌, ap, List, [], ◌∷◌, Option, codes, length, arith,
  if◌then◌else◌, Bool-cases, inl, inr,
}
use go_multi_warp.Pool.Backend.{Backend, is_selectable}
use go_multi_warp.Pool.Registry.{Pool, healthy_from, healthy_count, admit_stats}
use go_multi_warp.Control.Uniqueness.Capacity.{serving, in_service, admit_stats-serving}
use go_multi_warp.Control.Uniqueness.Snapshot.{StatsSnapshot}
use go_multi_warp.Proxy.Serve.{ProxyState}
use go_multi_warp.Admin.{healthz, readyz, health_status, ready_answer}

in_service-selectable :
    (now : ℕ) (b : Backend)
    → (if (is_selectable now b).1 then 1 else 0) ≤ in_service (is_selectable now b).0.admit
unfolding is_selectable
in_service-selectable now b = ground arith

length-healthy_from :
    (now k : ℕ) (bs : List Backend)
    → length (healthy_from now k bs).1 ≤ serving (healthy_from now k bs).0
unfolding healthy_from serving
length-healthy_from now k [] = omega arith
length-healthy_from now k (b ∷ bs) =
    let one = in_service-selectable now b in
    let rest = length-healthy_from now (suc k) bs in ground arith

healthy_count-in_pool :
    (now : ℕ) (p : Pool) → (healthy_count now p).1 ≤ (admit_stats (healthy_count now p).0).in_pool
unfolding healthy_count
healthy_count-in_pool now p =
    let n = length-healthy_from now 0 p.backends in
    let s = admit_stats-serving (healthy_count now p).0 in omega arith

-- healthz reports "ok" exactly when readyz, asked at the same time, answers 200; a selectable backend is
-- always admitted.
pub healthz-readyz :
    (started : ℕ) (unique : Option StatsSnapshot) (now : ℕ) (st : ProxyState)
    → ((healthz started unique now st).1.status ≡ codes "ok") ↔ ((readyz now st).1.0 ≡ 200)
unfolding healthz readyz
healthz-readyz started unique now st =
    agree (healthy_count now st.pool).1 (admit_stats (healthy_count now st.pool).0).in_pool
      (healthy_count-in_pool now st.pool)
  where
    agree :
        (healthy admitted : ℕ)
        → healthy ≤ admitted
        → (health_status (healthy == 0 || admitted == 0) ≡ codes "ok")
          ↔ ((ready_answer (ltb 0 healthy)).0 ≡ 200)
    agree healthy admitted h = elim (Bool-cases (healthy == 0)) [
      | inl z ↦ (λ e. absurd (ground (arith, ap length e)), λ e. absurd (ground arith))
      | inr z ↦ (λ e. ground arith, λ e. ground arith)
    ]
