-- ===== src/Pool/Select.antt =====
-- internal/pool/pool.go, Select and its strategies. An index out of range is the panic of Go's
-- runtime, which ends the program; a place is a `*Backend`, and the lease holds it.
pub mod Slots
pub mod Pick
pub mod RoundRobin
pub mod LeastConn
pub mod Lightest
pub mod Sticky
pub mod Polls
pub mod Outcomes
pub mod Counter
use go_multi_warp.Prelude.{
  ℕ, zero, suc, ◌+◌, ℤ, pos, negsuc, ◌+ℤ◌, ltb_ℤ, ◌==◌, sub_ℕ, to_int64, rem, inc_u64, Bool, true,
  false, ◌&&◌, ◌||◌, List, [], ◌∷◌, Option, none, some, length, get_elem?, set, if◌then◌else◌,
}
use go_multi_warp.Config.{PoolStrategy, round_robin, least_conn, sticky, other_strategy}
use go_multi_warp.Pool.Backend.{Backend, has_capacity, is_selectable, try_acquire}
use go_multi_warp.Pool.Registry.{Pool, StickyEntry, healthy_from, get, with_place}

pub data Outcome (A : Type 0) : Type 0 where
  panic : Outcome A
  done : A → Outcome A

infixl 5 ◌>>=◌
abbrev pub ◌>>=◌ : {A B : Type 0} → Outcome A → (A → Outcome B) → Outcome B
panic >>= next = panic
done a >>= next = next a

pub data SelectError : Type 0 where
  no_healthy_backend : SelectError

pub data Selection : Type 0 where
  lease : ℕ → Selection
  refused : SelectError → Selection

abbrev or_panic : {A : Type 0} → Option A → Outcome A
or_panic none = panic
or_panic (some a) = done a

-- xs[i]
unfoldable pub at_index : {A : Type 0} → List A → ℤ → Outcome A
at_index xs (pos i) = or_panic (get_elem? xs i)
at_index xs (negsuc i) = panic

-- healthy[i].TryAcquire(), by the backend's place
unfoldable pub acquire_at : ℕ → ℕ → List Backend → List Backend × Bool
acquire_at now i [] = ([], false)
acquire_at now zero (b ∷ bs) = let (c, ok) = try_acquire now b in (c ∷ bs, ok)
acquire_at now (suc i) (b ∷ bs) = let (cs, ok) = acquire_at now i bs in (b ∷ cs, ok)

-- The backends after a pick, and the place picked.
abbrev pub Picked : Type 0
Picked = List Backend × Option ℕ

-- The loop of pickRR, with `rounds` left from round `i` on.
unfoldable pub rr_loop : ℕ → List ℕ → ℤ → ℕ → ℕ → List Backend → Outcome Picked
rr_loop now healthy start i zero bs = done (bs, none)
rr_loop now healthy start i (suc rounds) bs = do
  place ← at_index healthy (rem (start +ℤ pos i) (length healthy))
  let (cs, ok) = acquire_at now place bs
  let rest = rr_loop now healthy start (suc i) rounds cs
  if ok then done (cs, some place) else rest

abbrev rr_from : ℕ → ℕ → List Backend × List ℕ → Outcome (Picked × ℕ)
rr_from now rr (cs, []) = done ((cs, none), rr)
rr_from now rr (cs, h ∷ hs) = do
  let n = length (h ∷ hs)
  picked ← rr_loop now (h ∷ hs) (rem (to_int64 (pos rr)) n) 0 n cs
  done (picked, inc_u64 rr)

-- `rr` is the counter before Add(1), and goes up only if some backend is healthy.
unfoldable pub pick_rr : ℕ → ℕ → List Backend → Outcome (Picked × ℕ)
unfolding rr_loop
pick_rr now rr bs = rr_from now rr (healthy_from now 0 bs)

-- One round of the loop of pickLeastConn: `best` and `bestLoad` so far.
abbrev pub better : ℕ → Option Backend → Option ℕ × ℤ → Option ℕ × ℤ
better i none best = best
better i (some b) (best, load) =
    if (ltb_ℤ b.inflight load || ltb_ℤ load (pos 0)) && has_capacity b
    then (some i, b.inflight)
    else (best, load)

unfoldable pub least_loop : List Backend → List ℕ → Option ℕ × ℤ → Option ℕ × ℤ
least_loop bs [] best = best
least_loop bs (i ∷ is) best = least_loop bs is (better i (get_elem? bs i) best)

-- The first of the places whose backend gives a slot.
unfoldable pub acquire_first : ℕ → List ℕ → List Backend → Picked
acquire_first now [] bs = (bs, none)
acquire_first now (i ∷ is) bs =
    let (cs, ok) = acquire_at now i bs in
    let rest = acquire_first now is cs in if ok then (cs, some i) else rest

abbrev first_healthy : ℕ → List Backend → Picked
first_healthy now bs = let (cs, healthy) = healthy_from now 0 bs in acquire_first now healthy cs

try_best : ℕ → Option ℕ → List Backend → Picked
try_best now none cs = first_healthy now cs
try_best now (some i) cs =
    let (ds, ok) = acquire_at now i cs in if ok then (ds, some i) else first_healthy now ds

unfoldable pub pick_least_conn : ℕ → List Backend → Picked
unfolding try_best least_loop
pick_least_conn now bs =
    let (cs, healthy) = healthy_from now 0 bs in
    try_best now (least_loop cs healthy (none, negsuc 0)).0 cs

abbrev sticky_from : ℕ → ℕ → List Backend × List ℕ → Outcome Picked
sticky_from now key (cs, []) = done (cs, none)
sticky_from now key (cs, h ∷ hs) = do
  place ← at_index (h ∷ hs) (rem (to_int64 (pos key)) (length (h ∷ hs)))
  let (ds, ok) = acquire_at now place cs
  done (ds, if ok then some place else none)

-- `key` is a uint64, which int(key) reads as a signed number.
unfoldable pub pick_sticky : ℕ → ℕ → List Backend → Outcome Picked
pick_sticky now key bs = sticky_from now key (healthy_from now 0 bs)

unfoldable pub sticky_entry : ℕ → List (ℕ × StickyEntry) → Option StickyEntry
sticky_entry key [] = none
sticky_entry key ((k, e) ∷ m) = if k == key then some e else sticky_entry key m

abbrev keep_place : ℕ → Bool → Option ℕ
keep_place i true = some i
keep_place i false = none

-- The backend that the key was given before, if that is recent and the backend gives a slot.
abbrev sticky_hit : ℕ → Option StickyEntry → Pool → Pool × Option ℕ
sticky_hit now none p = (p, none)
sticky_hit now (some e) p =
    if ltb_ℤ (sub_ℕ now e.updated) p.sticky_ttl
    then with_place (get e.id p) (p, none)
        (λ i.
          let (bs, ok) = acquire_at now i p.backends in
          (record p { backends = bs }, keep_place i ok))
    else (p, none)

abbrev pub is_sticky : PoolStrategy → Bool
is_sticky sticky = true
is_sticky _ = false

abbrev least_in : ℕ → Pool → Pool × Option ℕ
least_in now p = let (bs, o) = pick_least_conn now p.backends in (record p { backends = bs }, o)

abbrev or_least : ℕ → Pool × Option ℕ → Pool × Option ℕ
or_least now (p, some i) = (p, some i)
or_least now (p, none) = least_in now p

-- The `switch` on the strategy.
pick_by : ℕ → ℕ → PoolStrategy → Pool → Outcome (Pool × Option ℕ)
pick_by now key round_robin p = do
  ((bs, o), rr) ← pick_rr now p.rr p.backends
  done (record p { backends = bs; rr = rr }, o)
pick_by now key least_conn p = done (least_in now p)
pick_by now key sticky p = do
  (bs, o) ← pick_sticky now key p.backends
  done (or_least now (record p { backends = bs }, o))
pick_by now key (other_strategy s) p = done (least_in now p)

id_at : Option Backend → ℤ
id_at none = pos 0
id_at (some b) = b.id

-- A place that was picked is one of the pool.
granted : ℕ → ℕ → Pool × Option ℕ → Pool × Selection
unfolding id_at
granted now key (p, none) =
    (record p { select_fail = inc_u64 p.select_fail }, refused no_healthy_backend)
granted now key (p, some i) = (
  if is_sticky p.strategy
      then record p {
        sticky = (key, record { id = id_at (get_elem? p.backends i); updated = now }) ∷ p.sticky;
      }
      else p,
  lease i,
)

after_hit : ℕ → ℕ → Pool × Option ℕ → Outcome (Pool × Selection)
unfolding pick_by granted
after_hit now key (p, some i) = done (p, lease i)
after_hit now key (p, none) = do
  picked ← pick_by now key p.strategy p
  done (granted now key picked)

unfoldable pub select : ℕ → ℕ → Pool → Outcome (Pool × Selection)
unfolding after_hit
select now key p =
    let q : Pool = record p { selects = inc_u64 p.selects } in
    after_hit now key
      (if is_sticky p.strategy then sticky_hit now (sticky_entry key p.sticky) q else (q, none))
