-- ===== src/Pool/Select/Outcomes.antt =====
-- What Select of pool.go promises, whatever the strategy: the slots before and after.
use go_multi_warp.Prelude.{
  ℕ, ◌<◌, ◌≡◌, refl, sym, ap, ◌∙◌, inl, inr, Bool, true, false, List, Option, none, some, arith,
  inc_u64, ltb_ℤ, sub_ℕ, if◌then◌else◌, Bool-cases, subst,
}
use go_multi_warp.Config.{PoolStrategy, round_robin, least_conn, sticky, other_strategy}
use go_multi_warp.Pool.Backend.{Backend}
use go_multi_warp.Pool.Registry.{Pool, StickyEntry, get, with_place}
use go_multi_warp.Pool.Select.{
  Outcome, done, Selection, lease, acquire_at, pick_least_conn, sticky_entry, sticky_hit, is_sticky,
  keep_place, pick_by, granted, after_hit, or_least, select,
}
use go_multi_warp.Pool.Select.LeastConn.{pick_least_conn-Answers}
use go_multi_warp.Pool.Select.RoundRobin.{pick_rr-Answers}
use go_multi_warp.Pool.Select.Sticky.{StickyAnswers, pick_sticky-StickyAnswers}
use go_multi_warp.Pool.Select.Polls.{
  inflights, TookSlot, Promised, Partial, inflights-taken, Answers-Partial, Polls, Polls-refl,
  Polls-all, Polls-Partial, Attempts, attempt_any,
}

-- The pool and the place after a step of Select, from the backends `bs` on.
abbrev Kept : ℕ → List Backend → Pool → Pool × Option ℕ → Type 0
Kept now bs p (q, none) = (q.strategy ≡ p.strategy) × (q.rr ≡ p.rr) × Polls now bs q.backends
Kept now bs p (q, some i) = (q.strategy ≡ p.strategy) × (q.rr ≡ p.rr) × TookSlot now bs i q.backends

hit_at :
    (now i : ℕ) (p : Pool) (r : List Backend × Bool)
    → Attempts now p.backends i r
    → Kept now p.backends p (record p { backends = r.0 }, keep_place i r.1)
hit_at now i p (cs, true) a = (refl, refl, a)
hit_at now i p (cs, false) a = (refl, refl, a)

hit_place :
    (now : ℕ) (p : Pool) (o : Option ℕ)
    → Kept now p.backends p (
        with_place o
          (p, none)
          (λ i.
            let (bs, ok) = acquire_at now i p.backends in
            (record p { backends = bs }, keep_place i ok)))
hit_place now p none = (refl, refl, Polls-refl now p.backends)
hit_place now p (some i) =
    hit_at now i p (acquire_at now i p.backends) (attempt_any now i p.backends)

sticky_hit-Kept :
    (now : ℕ) (e : Option StickyEntry) (p : Pool) → Kept now p.backends p (sticky_hit now e p)
sticky_hit-Kept now none p = (refl, refl, Polls-refl now p.backends)
sticky_hit-Kept now (some e) p = elim (Bool-cases (ltb_ℤ (sub_ℕ now e.updated) p.sticky_ttl)) [
  | inl t ↦ rw (t, if◌then◌else◌) (hit_place now p (get e.id p))
  | inr t ↦ rw (t, if◌then◌else◌) (refl, refl, Polls-refl now p.backends)
]

abbrev PartialPool : ℕ → List Backend → Pool × Option ℕ → Type 0
PartialPool now bs (q, o) = Partial now bs (q.backends, o)

sticky_picked :
    (now key : ℕ) (p : Pool) (q : List Backend × Option ℕ)
    → StickyAnswers now key p.backends q
    → PartialPool now p.backends (or_least now (record p { backends = q.0 }, q.1))
sticky_picked now key p (cs, some i) (b, named, at, f, e) =
    (b, at, f, ap inflights e ∙ inflights-taken now i p.backends b)
sticky_picked now key p (cs, none) (e, busy) =
    Polls-Partial now p.backends cs (pick_least_conn now cs)
      (subst (Polls now p.backends) (sym e) (Polls-all now p.backends))
      (Answers-Partial now cs (pick_least_conn now cs) (pick_least_conn-Answers now cs))

pick_by-Partial :
    (now key : ℕ) (s : PoolStrategy) (p : Pool)
    → key < 0x8000000000000000
    → p.rr < 0x8000000000000000
    → (r : Pool × Option ℕ) × (pick_by now key s p ≡ done r) × PartialPool now p.backends r
unfolding pick_by
pick_by-Partial now key round_robin p h k =
    let (q, after, e, a) = pick_rr-Answers now p.rr p.backends k in
    ((record p { backends = q.0; rr = after }, q.1), rw e, Answers-Partial now p.backends q a)
pick_by-Partial now key least_conn p h k =
    (_, refl, Answers-Partial now p.backends _ (pick_least_conn-Answers now p.backends))
pick_by-Partial now key sticky p h k =
    let (q, e, a) = pick_sticky-StickyAnswers now key p.backends h in
    (or_least now (record p { backends = q.0 }, q.1), rw e, sticky_picked now key p q a)
pick_by-Partial now key (other_strategy s) p h k =
    (_, refl, Answers-Partial now p.backends _ (pick_least_conn-Answers now p.backends))

granted-Promised :
    (now key : ℕ) (bs : List Backend) (r : Pool × Option ℕ)
    → PartialPool now bs r
    → Promised now bs (granted now key r).0.backends (granted now key r).1
unfolding granted
granted-Promised now key bs (q, none) a = a
granted-Promised now key bs (q, some i) a = elim (Bool-cases (is_sticky q.strategy)) [
  | inl e ↦ rw (e, if◌then◌else◌) a
  | inr e ↦ rw (e, if◌then◌else◌) a
]

-- What Select comes to: it does not panic, and keeps its promise.
abbrev Keeps : ℕ → List Backend → Outcome (Pool × Selection) → Type 0
Keeps now bs r = (q : Pool) × (s : Selection) × (r ≡ done (q, s)) × Promised now bs q.backends s

after_hit-Keeps :
    (now key : ℕ) (p : Pool) (r : Pool × Option ℕ)
    → key < 0x8000000000000000
    → p.rr < 0x8000000000000000
    → Kept now p.backends p r
    → Keeps now p.backends (after_hit now key r)
unfolding after_hit
after_hit-Keeps now key p (q, some i) h k a = (q, lease i, refl, a.2)
after_hit-Keeps now key p (q, none) h k a =
    let bounded : q.rr < 0x8000000000000000 = omega arith in
    let ((t, o), e, t_promise) = pick_by-Partial now key q.strategy q h bounded in
    (
      (granted now key (t, o)).0,
      (granted now key (t, o)).1,
      rw e,
      granted-Promised now key p.backends (t, o)
          (Polls-Partial now p.backends q.backends (t.backends, o) a.2 t_promise),
    )

-- Whatever the strategy, for a sticky key and a round-robin counter below 2 ^ 63, Select does not
-- panic. A lease comes with one slot of a backend that had one free; a refusal takes no slot and comes
-- only when no backend would give one. No other in-flight count changes.
pub select-Promised :
    (now key : ℕ) (p : Pool)
    → key < 0x8000000000000000
    → p.rr < 0x8000000000000000
    → (q : Pool) × (s : Selection) × (select now key p ≡ done (q, s))
      × Promised now p.backends q.backends s
unfolding select
select-Promised now key p h k =
    let start : Pool = record p { selects = inc_u64 p.selects } in
    elim (Bool-cases (is_sticky p.strategy)) [
      | inl e ↦
          rw (e, if◌then◌else◌)
            (after_hit-Keeps now key start (sticky_hit now (sticky_entry key p.sticky) start) h k
              (sticky_hit-Kept now (sticky_entry key p.sticky) start))
      | inr e ↦
          rw (e, if◌then◌else◌)
            (after_hit-Keeps now key start (start, none) h k
              (refl, refl, Polls-refl now p.backends))
    ]
