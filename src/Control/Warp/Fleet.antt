-- ===== src/Control/Warp/Fleet.antt =====
-- internal/control/warpctl_linux.go: StartAll, over the machines of the instances, by their ids. An error of
-- an instance is only logged.
use go_multi_warp.Prelude.{
  ℕ, zero, suc, ◌+◌, ◌*◌, ◌≤◌, pos, pos_part, ◌≡◌, refl, ap, ◌∙◌, Bool, List, [], ◌∷◌, Option, none,
  some, length, arith,
}
use go_multi_warp.Config.{Config}
use go_multi_warp.Control.Warp.{Host, Machine, Failure, Command, start_one}
use go_multi_warp.Control.Warp.Restarts.{start_one-EndsBy}

-- What StartOne gave for each instance, and the time after the last pause.
abbrev pub Fleet : Type 0
Fleet = List (Machine × Option Failure) × ℕ

abbrev pub joined : Machine × Option Failure → Option Fleet → Option Fleet
joined r none = none
joined r (some (rs, t)) = some (r ∷ rs, t)

abbrev pub then_rest : ℕ → (ℕ → Option Fleet) → Option (Machine × Option Failure) → Option Fleet
then_rest pause rest none = none
then_rest pause rest (some (m, f)) = joined (m, f) (rest (m.clock + pause))

-- The loop from `id` on, with `left` rounds to go.
unfoldable pub start_from : Host → Config → Bool → (ℕ → Machine) → ℕ → ℕ → ℕ → Option Fleet
start_from h c forced machines zero id now = some ([], now)
start_from h c forced machines (suc left) id now =
    then_rest (pos_part c.control.start_stagger) (start_from h c forced machines left (suc id))
      (start_one h c forced (pos id) (record (machines id) { clock = now }))

unfoldable pub start_all : Host → Config → Bool → (ℕ → Machine) → ℕ → Option Fleet
unfolding start_from
start_all h c forced machines now = start_from h c forced machines (pos_part c.instances) 0 now

-- These are what StartOne gave for the machines from `id` on, the first at the time `now` and each further
-- one after the pause that follows the one before; the last pause ends at `t`.
abbrev pub AllTried :
    Host → Config → Bool → (ℕ → Machine) → ℕ → ℕ → ℕ → List (Machine × Option Failure) → Type 0
AllTried h c forced machines id now t [] = t ≡ now
AllTried h c forced machines id now t (r ∷ rs) =
    (start_one h c forced (pos id) (record (machines id) { clock = now }) ≡ some r)
    × AllTried h c forced machines (suc id) (r.0.clock + pos_part c.control.start_stagger) t rs

-- It returns by the time `limit`, with what StartOne gave for `left` machines from `id` on.
abbrev pub Tries : Host → Config → Bool → (ℕ → Machine) → ℕ → ℕ → ℕ → ℕ → Option Fleet → Type 0
Tries h c forced machines left id now limit o =
    (rs : List (Machine × Option Failure)) × (t : ℕ) × (o ≡ some (rs, t))
    × (length rs ≡ left)
    × AllTried h c forced machines id now t rs
    × (t ≤ limit)

next_limit : (n each : ℕ) → suc n * each ≡ each + n * each
next_limit n each = omega arith

module _ (h : Host) (longest : ℕ)
    (quick : (m : Machine) (c : Command) → h.takes m c ≤ longest) where
  start_from-Tries :
      (c : Config) (forced : Bool) (machines : ℕ → Machine) (left id now each : ℕ)
      → each
        ≡ pos_part c.control.warp_conn_timeout
          + pos_part c.control.start_stagger
          + 483200000000
          + 19 * longest
      → Tries h c forced machines left id now
          (now + left * each)
          (start_from h c forced machines left id now)
  unfolding start_from
  start_from-Tries c forced machines zero id now each e = ([], now, refl, refl, refl, omega arith)
  start_from-Tries c forced machines (suc left) id now each e =
      let (n, f, at, l) =
        start_one-EndsBy h longest quick c forced (pos id) (record (machines id) { clock = now }) in
      let pause = pos_part c.control.start_stagger in
      let (rs, t, all, size, tried, late) =
        start_from-Tries c forced machines left (suc id) (n.clock + pause) each e in
      (
        (n, f) ∷ rs,
        t,
        ap (then_rest pause (start_from h c forced machines left (suc id))) at
            ∙ ap (joined (n, f)) all,
        ap suc size,
        (at, tried),
        omega (arith, next_limit left each),
      )

  -- If no command takes longer than `longest`, StartAll returns with a result of StartOne for each of the
  -- configured instances, tried in the order of the ids, whatever the others gave, each after the pause
  -- that follows the one before: within the time that waitReady is given, the pause, 483.2 seconds and
  -- the time of 19 commands for each of them.
  pub start_all-Tries :
      (c : Config) (forced : Bool) (machines : ℕ → Machine) (now : ℕ)
      → Tries h c forced machines
          (pos_part c.instances)
          0
          now
          (now
            + pos_part c.instances
              * (pos_part c.control.warp_conn_timeout
                  + pos_part c.control.start_stagger
                  + 483200000000
                  + 19 * longest))
          (start_all h c forced machines now)
  unfolding start_all
  start_all-Tries c forced machines now =
      start_from-Tries c forced machines (pos_part c.instances) 0 now _ refl
