-- ===== src/Pool/Select/Counter.antt =====
-- The round-robin counter of pool.go after Select.
use go_multi_warp.Prelude.{
  ℕ, ◌+◌, ◌≤◌, inc_u64, ◌≡◌, refl, inl, inr, List, [], ◌∷◌, Option, none, some, arith,
  if◌then◌else◌, Bool-cases,
}
use go_multi_warp.Config.{PoolStrategy, round_robin, least_conn, sticky, other_strategy}
use go_multi_warp.Pool.Backend.{Backend}
use go_multi_warp.Pool.Registry.{Pool, StickyEntry, get, with_place, healthy_from}
use go_multi_warp.Pool.Select.{
  Outcome, panic, done, ◌>>=◌, Selection, rr_from, pick_rr, pick_sticky, pick_by, granted,
  after_hit, or_least, is_sticky, sticky_entry, sticky_hit, keep_place, acquire_at, select,
}

pub bind-done :
    {A B : Type 0} (m : Outcome A) (next : A → Outcome B) {b : B}
    → (m >>= next) ≡ done b
    → (a : A) × (m ≡ done a) × (next a ≡ done b)
bind-done (done a) next e = (a, refl, e)
bind-done panic next e = absurd (cc)

rr_from-le :
    (now rr after : ℕ) (h : List Backend × List ℕ) (q : List Backend × Option ℕ)
    → rr_from now rr h ≡ done (q, after)
    → after ≤ rr + 1
rr_from-le now rr after (cs, []) q e = ground arith
rr_from-le now rr after (cs, j ∷ js) q e =
    let (a, f, g) = bind-done _ (λ picked. done (picked, inc_u64 rr)) e in
    let same : inc_u64 rr ≡ after = ground arith in omega arith

with_hit :
    (now : ℕ) (o : Option ℕ) (p : Pool)
    → (with_place {A = Pool × Option ℕ} o
        (p, none)
        (λ i.
          let (bs, ok) = acquire_at now i p.backends in
          (record p { backends = bs }, keep_place i ok))).0.rr
      ≡ p.rr
with_hit now none p = refl
with_hit now (some i) p = refl

sticky_hit-rr : (now : ℕ) (o : Option StickyEntry) (p : Pool) → (sticky_hit now o p).0.rr ≡ p.rr
sticky_hit-rr now none p = refl
sticky_hit-rr now (some e) p = ground (arith, with_hit now (get e.id p) p)

granted-rr : (now key : ℕ) (r : Pool × Option ℕ) → (granted now key r).0.rr ≡ r.0.rr
unfolding granted
granted-rr now key (p, none) = refl
granted-rr now key (p, some i) = ground arith

or_least-rr : (now : ℕ) (p : Pool) (o : Option ℕ) → (or_least now (p, o)).0.rr ≡ p.rr
or_least-rr now p none = refl
or_least-rr now p (some i) = refl

pick_by-rr :
    (now key : ℕ) (s : PoolStrategy) (p : Pool) (r : Pool × Option ℕ)
    → pick_by now key s p ≡ done r
    → r.0.rr ≤ p.rr + 1
unfolding pick_by pick_rr
pick_by-rr now key round_robin p r e =
    let (((bs, o), rr), f, g) = bind-done (pick_rr now p.rr p.backends) _ e in
    let bound = rr_from-le now p.rr rr (healthy_from now 0 p.backends) (bs, o) f in ground arith
pick_by-rr now key least_conn p r e = ground arith
pick_by-rr now key sticky p r e =
    let ((bs, o), f, g) = bind-done (pick_sticky now key p.backends) _ e in
    ground (arith, or_least-rr now (record p { backends = bs }) o)
pick_by-rr now key (other_strategy x) p r e = ground arith

after_hit-rr :
    (now key : ℕ) (h : Pool × Option ℕ) (q : Pool) (s : Selection)
    → after_hit now key h ≡ done (q, s)
    → q.rr ≤ h.0.rr + 1
unfolding after_hit
after_hit-rr now key (p, some i) q s e = ground arith
after_hit-rr now key (p, none) q s e =
    let (r, f, g) = bind-done (pick_by now key p.strategy p) _ e in
    ground (arith, pick_by-rr now key p.strategy p r f, granted-rr now key r)

-- Select moves the round-robin counter by one at most.
pub select-rr :
    (now key : ℕ) (p q : Pool) (s : Selection) → select now key p ≡ done (q, s) → q.rr ≤ p.rr + 1
unfolding select
select-rr now key p q s e =
    let start : Pool = record p { selects = inc_u64 p.selects } in
    elim (Bool-cases (is_sticky p.strategy)) [
      | inl t ↦ ground (
        arith,
        after_hit-rr now key (sticky_hit now (sticky_entry key p.sticky) start) q s
            (rw (t, if◌then◌else◌) at e),
        sticky_hit-rr now (sticky_entry key p.sticky) start,
      )
      | inr t ↦ ground (arith, after_hit-rr now key (start, none) q s (rw (t, if◌then◌else◌) at e))
    ]
