-- ===== src/Control/Supervisor.antt =====
-- internal/control/supervisor.go: the tick that asks the controller to restart or reconnect instances.
-- The controller is the parameter `restarts`, which says for an id whether Restart succeeds; the calls
-- to it are recorded in order.
use go_multi_warp.Prelude.{
  ℕ, zero, suc, ℤ, pos, leb_ℤ, ◌≡◌, refl, ap, ◌∙◌, Bool, true, not, ◌&&◌, ◌||◌, List, [], ◌∷◌, ◌++◌,
  map, Option, none, some, codes, bytes_eq, arith, if◌then◌else◌,
}
use go_multi_warp.Config.{Control}
use go_multi_warp.Pool.Backend.{Backend, Snapshot, snapshot, unknown, force_state}
use go_multi_warp.Pool.Registry.{Pool, get, modify, update, with_place, snapshots, pool_force_state}

pub data Call : Type 0 where
  restart reconnect : ℤ → Call

abbrev pub needs_soft : Control → Snapshot → Bool
needs_soft c s =
    (bytes_eq s.state (codes "unhealthy") || bytes_eq s.state (codes "circuit_open"))
    && leb_ℤ c.reconnect_fails (pos s.fails)

abbrev pub needs_hard : Control → Snapshot → Bool
needs_hard c s = leb_ℤ c.hard_restart_fails (pos s.fails)

-- A round of the loop, with a controller: the pool after it and the call it makes.
unfoldable pub supervise : Control → (ℤ → Bool) → ℕ → Snapshot → Pool → Pool × List Call
supervise c restarts now s p =
    if not (needs_soft c s) && not (needs_hard c s)
    then (p, [])
    else if needs_hard c s
    then (if restarts s.id then pool_force_state now s.id unknown p else p, restart s.id ∷ [])
    else (p, reconnect s.id ∷ [])

unfoldable pub supervise_all : Control → (ℤ → Bool) → ℕ → List Snapshot → Pool → Pool × List Call
supervise_all c restarts now [] p = (p, [])
supervise_all c restarts now (s ∷ ss) p =
    let (q, calls) = supervise c restarts now s p in
    let (r, rest) = supervise_all c restarts now ss q in (r, calls ++ rest)

-- In attach mode there is no controller, and the tick only logs.
unfoldable pub tick : Control → Bool → (ℤ → Bool) → ℕ → Pool → Pool × List Call
tick c managed restarts now p =
    if managed then supervise_all c restarts now (snapshots now p) p else (p, [])

-- The ids that were restarted.
unfoldable pub restarted : List Call → List ℤ
restarted [] = []
restarted (restart id ∷ cs) = id ∷ restarted cs
restarted (reconnect id ∷ cs) = restarted cs

-- The ids whose failures in a row reach the threshold, in the order of the backends.
unfoldable pub overdue : ℤ → List Backend → List ℤ
overdue limit [] = []
overdue limit (b ∷ bs) =
    let rest = overdue limit bs in if leb_ℤ limit (pos b.fails) then b.id ∷ rest else rest

restarted-append : (xs ys : List Call) → restarted (xs ++ ys) ≡ restarted xs ++ restarted ys
unfolding restarted
restarted-append [] ys = refl
restarted-append (restart id ∷ xs) ys = ap (◌∷◌ id) (restarted-append xs ys)
restarted-append (reconnect id ∷ xs) ys = restarted-append xs ys

restarted-supervise :
    (c : Control) (restarts : ℤ → Bool) (now : ℕ) (s : Snapshot) (p : Pool)
    → restarted (supervise c restarts now s p).1 ≡ (if needs_hard c s then s.id ∷ [] else [])
unfolding restarted supervise
restarted-supervise c restarts now s p = ground arith

restarted-supervise_all :
    (c : Control) (restarts : ℤ → Bool) (now later : ℕ) (bs : List Backend) (p : Pool)
    → restarted (supervise_all c restarts later (map (snapshot now) bs) p).1
      ≡ overdue c.hard_restart_fails bs
unfolding restarted supervise_all overdue snapshot
restarted-supervise_all c restarts now later [] p = refl
restarted-supervise_all c restarts now later (b ∷ bs) p =
    let q = supervise c restarts later (snapshot now b) p in
    let rest = restarted-supervise_all c restarts now later bs q.0 in
    restarted-append q.1 (supervise_all c restarts later (map (snapshot now) bs) q.0).1
    ∙ ap (λ xs. xs ++ restarted (supervise_all c restarts later (map (snapshot now) bs) q.0).1)
        (restarted-supervise c restarts later (snapshot now b) p)
    ∙ ground (arith, rest)

overdue-modify :
    (limit : ℤ) (now i : ℕ) (bs : List Backend)
    → overdue limit (modify i (force_state now unknown) bs) ≡ overdue limit bs
unfolding overdue modify force_state
overdue-modify limit now i [] = refl
overdue-modify limit now zero (b ∷ bs) = refl
overdue-modify limit now (suc i) (b ∷ bs) =
    ap (λ xs. if leb_ℤ limit (pos b.fails) then b.id ∷ xs else xs) (overdue-modify limit now i bs)

overdue-force_state :
    (limit : ℤ) (now : ℕ) (id : ℤ) (p : Pool)
    → overdue limit (pool_force_state now id unknown p).backends ≡ overdue limit p.backends
unfolding pool_force_state
overdue-force_state limit now id p = at_place (get id p)
  where
    at_place :
        (o : Option ℕ)
        → overdue limit
            (with_place {A = Pool} o p (λ i. update i (force_state now unknown) p)).backends
          ≡ overdue limit p.backends
    at_place none = refl
    at_place (some i) = overdue-modify limit now i p.backends

overdue-supervise :
    (c : Control) (restarts : ℤ → Bool) (now : ℕ) (limit : ℤ) (s : Snapshot) (p : Pool)
    → overdue limit (supervise c restarts now s p).0.backends ≡ overdue limit p.backends
unfolding supervise
overdue-supervise c restarts now limit s p = ground (arith, overdue-force_state limit now s.id p)

overdue-supervise_all :
    (c : Control) (restarts : ℤ → Bool) (now : ℕ) (limit : ℤ) (ss : List Snapshot) (p : Pool)
    → overdue limit (supervise_all c restarts now ss p).0.backends ≡ overdue limit p.backends
unfolding supervise_all
overdue-supervise_all c restarts now limit [] p = refl
overdue-supervise_all c restarts now limit (s ∷ ss) p =
    overdue-supervise_all c restarts now limit ss (supervise c restarts now s p).0
    ∙ overdue-supervise c restarts now limit s p

-- In managed mode a tick restarts exactly the backends whose failures in a row reach the threshold,
-- in their order; and since a restart does not reset that count, a second tick with nothing between
-- restarts the same ones again, even if each restart succeeded.
pub restarted-tick :
    (c : Control) (restarts again : ℤ → Bool) (now later : ℕ) (p : Pool)
    → (restarted (tick c true restarts now p).1 ≡ overdue c.hard_restart_fails p.backends)
      × (restarted (tick c true again later (tick c true restarts now p).0).1
          ≡ overdue c.hard_restart_fails p.backends)
unfolding tick snapshots
restarted-tick c restarts again now later p = (
  restarted-supervise_all c restarts now now p.backends p,
  restarted-supervise_all c again later later
        (supervise_all c restarts now (map (snapshot now) p.backends) p).0.backends
        (supervise_all c restarts now (map (snapshot now) p.backends) p).0
      ∙ overdue-supervise_all c restarts now c.hard_restart_fails (map (snapshot now) p.backends) p,
)
