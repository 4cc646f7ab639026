-- ===== src/Program/Kept.antt =====
-- What the operations on the pool by id, and those of the prober, the supervisor and the admin interface
-- keep: the slots and the round-robin counter.
use go_multi_warp.Prelude.{
  ℕ, suc, ℤ, ◌≡◌, refl, ap, ◌∙◌, Bool, true, false, List, [], ◌∷◌, Option, none, some, Bytes, arith,
}
use mathlib.Core.Path.{ap₂}
use go_multi_warp.Config.{Control}
use go_multi_warp.Pool.Backend.{
  Backend, State, unknown, unhealthy, in_pool, parked, warming, Snapshot, ProbeInfo, mark_probe_ok,
  mark_probe_fail, force_state, set_admit, inc_unique_attempt, is_selectable,
}
use go_multi_warp.Pool.Registry.{
  Pool, get, update, with_place, pool_mark_probe_ok, pool_mark_probe_fail, pool_force_state, admit,
  park, set_warming, healthy_from, healthy_count,
}
use go_multi_warp.Pool.Select.Polls.{inflights}
use go_multi_warp.Proxy.Dial.Slots.{inflights-modify}
use go_multi_warp.Health.{Verdict, bad, good, handle}
use go_multi_warp.Control.Supervisor

-- The slots that are taken of each backend, and the round-robin counter.
abbrev pub view : Pool → List ℤ × ℕ
view p = (inflights p.backends, p.rr)

pub view-update :
    (f : Backend → Backend) (i : ℕ) (p : Pool)
    → ((b : Backend) → (f b).inflight ≡ b.inflight)
    → view (update i f p) ≡ view p
view-update f i p h = ap (λ ns. (ns, p.rr)) (inflights-modify f i p.backends h)

view-with_place :
    (o : Option ℕ) (p : Pool) (g : ℕ → Pool)
    → ((i : ℕ) → view (g i) ≡ view p)
    → view (with_place {A = Pool} o p g) ≡ view p
view-with_place none p g h = refl
view-with_place (some i) p g h = h i

view-with_answer :
    (o : Option ℕ) (p : Pool) (g : ℕ → Pool × Bool)
    → ((i : ℕ) → view (g i).0 ≡ view p)
    → view (with_place {A = Pool × Bool} o (p, false) g).0 ≡ view p
view-with_answer none p g h = refl
view-with_answer (some i) p g h = h i

pub view-mark_probe_ok :
    (now : ℕ) (id : ℤ) (info : ProbeInfo) (p : Pool)
    → view (pool_mark_probe_ok now id info p) ≡ view p
unfolding pool_mark_probe_ok mark_probe_ok
view-mark_probe_ok now id info p =
    view-with_place (get id p) p _
      (λ i. view-update (mark_probe_ok now info) i p (λ b. ground arith))

pub view-mark_probe_fail :
    (now : ℕ) (id : ℤ) (e : Bytes) (p : Pool) → view (pool_mark_probe_fail now id e p) ≡ view p
unfolding pool_mark_probe_fail mark_probe_fail
view-mark_probe_fail now id e p =
    view-with_place (get id p) p _
      (λ i. view-update (mark_probe_fail now e) i p (λ b. ground arith))

pub view-force_state :
    (now : ℕ) (id : ℤ) (s : State) (p : Pool) → view (pool_force_state now id s p) ≡ view p
unfolding pool_force_state force_state
view-force_state now id s p =
    view-with_place (get id p) p _ (λ i. view-update (force_state now s) i p (λ b. ground arith))

pub view-admit : (now : ℕ) (id : ℤ) (ip : Bytes) (p : Pool) → view (admit now id ip p).0 ≡ view p
unfolding admit set_admit
view-admit now id ip p =
    view-with_answer (get id p) p _
      (λ i. view-update (set_admit now in_pool ip) i p (λ b. ground arith))

pub view-park : (now : ℕ) (id : ℤ) (ip : Bytes) (p : Pool) → view (park now id ip p).0 ≡ view p
unfolding park set_admit
view-park now id ip p =
    view-with_answer (get id p) p _
      (λ i. view-update (set_admit now parked ip) i p (λ b. ground arith))

pub view-set_warming : (now : ℕ) (id : ℤ) (p : Pool) → view (set_warming now id p).0 ≡ view p
unfolding set_warming set_admit
view-set_warming now id p =
    view-with_answer (get id p) p _
      (λ i. view-update (set_admit now warming []) i p (λ b. ground arith))

pub view-attempt : (i : ℕ) (p : Pool) → view (update i (λ d. (inc_unique_attempt d).0) p) ≡ view p
unfolding inc_unique_attempt
view-attempt i p = view-update (λ d. (inc_unique_attempt d).0) i p (λ b. refl)

pub view-handle :
    (now i : ℕ) (id : ℤ) (v : Verdict) (p : Pool) → view (handle now i id v p) ≡ view p
unfolding handle
view-handle now i id (good info) p = view-mark_probe_ok now id info p
view-handle now i id (bad e) p = ground (
  arith,
  view-mark_probe_fail now id e p,
  view-force_state now id unhealthy (pool_mark_probe_fail now id e p),
)

view-supervise :
    (c : Control) (restarts : ℤ → Bool) (now : ℕ) (s : Snapshot) (p : Pool)
    → view (Supervisor.supervise c restarts now s p).0 ≡ view p
unfolding Supervisor.supervise
view-supervise c restarts now s p = ground (arith, view-force_state now s.id unknown p)

view-supervise_all :
    (c : Control) (restarts : ℤ → Bool) (now : ℕ) (ss : List Snapshot) (p : Pool)
    → view (Supervisor.supervise_all c restarts now ss p).0 ≡ view p
unfolding Supervisor.supervise_all
view-supervise_all c restarts now [] p = refl
view-supervise_all c restarts now (s ∷ ss) p =
    view-supervise_all c restarts now ss (Supervisor.supervise c restarts now s p).0
    ∙ view-supervise c restarts now s p

pub view-supervisor :
    (c : Control) (managed : Bool) (restarts : ℤ → Bool) (now : ℕ) (p : Pool)
    → view (Supervisor.tick c managed restarts now p).0 ≡ view p
unfolding Supervisor.tick
view-supervisor c true restarts now p = view-supervise_all c restarts now _ p
view-supervisor c false restarts now p = refl

inflights-healthy_from :
    (now i : ℕ) (bs : List Backend) → inflights (healthy_from now i bs).0 ≡ inflights bs
unfolding healthy_from is_selectable
inflights-healthy_from now i [] = refl
inflights-healthy_from now i (b ∷ bs) =
    ap₂ ◌∷◌ (ground arith) (inflights-healthy_from now (suc i) bs)

pub view-healthy_count : (now : ℕ) (p : Pool) → view (healthy_count now p).0 ≡ view p
unfolding healthy_count
view-healthy_count now p = ap (λ ns. (ns, p.rr)) (inflights-healthy_from now 0 p.backends)
