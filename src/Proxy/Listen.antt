-- ===== src/Proxy/Listen.antt =====
-- The listeners of internal/proxy: Serve and drain of socks5.go and http_proxy.go, which are alike, and the
-- end of main.go. Time is in nanoseconds since ctx was cancelled; the ticker is on time. `tie` says which
-- case select takes in a round in which both are ready.
pub mod Draining
use go_multi_warp.Prelude.{
  ℕ, zero, suc, ◌+◌, ◌-◌, ◌*◌, ◌/◌, ℤ, pos, negsuc, pos_part, leb_ℤ, ltb_ℤ, add64, ltb, leb, ◌==◌,
  Bool, true, false, ◌&&◌, List, [], ◌∷◌, Option, none, some, if◌then◌else◌,
}
use go_multi_warp.Config.{Config}

-- What wakes a server up: Accept, with its result, or the end of a session.
pub data Event : Type 0 where
  accepted accept_failed closed ended : Event

-- activeConns over the loop of Serve, until the listener is closed.
unfoldable pub serve : List Event → ℤ → Option ℤ
serve [] active = none
serve (closed ∷ es) active = some active
serve (accepted ∷ es) active = serve es (add64 active (pos 1))
serve (accept_failed ∷ es) active = serve es active
serve (ended ∷ es) active = serve es (add64 active (negsuc 0))

unfoldable pub drain_timeout : Config → ℕ
drain_timeout c =
    if leb_ℤ c.control.drain_timeout (pos 0) then 30000000000 else pos_part c.control.drain_timeout

abbrev pub tick_ns : ℕ
tick_ns = 100000000

pub data Drained : Type 0 where
  all_drained forced : Drained

abbrev pub max_ℕ : ℕ → ℕ → ℕ
max_ℕ a b = if leb a b then b else a

-- The loop of drain after `k` ticks, for at most `rounds` rounds: how and when it returns.
unfoldable pub drain_from : (ℕ → ℤ) → (ℕ → Bool) → ℕ → ℕ → ℕ → Option (Drained × ℕ)
drain_from active tie deadline zero k = none
drain_from active tie deadline (suc rounds) k =
    let rest = drain_from active tie deadline rounds (suc k) in
    if leb_ℤ (active (k * tick_ns)) (pos 0)
    then some (all_drained, k * tick_ns)
    else if ltb deadline (suc k * tick_ns)
    then some (forced, max_ℕ deadline (k * tick_ns))
    else if deadline == suc k * tick_ns && tie k
    then some (forced, deadline)
    else rest

unfoldable pub drain : (ℕ → ℤ) → (ℕ → Bool) → Config → Option (Drained × ℕ)
unfolding drain_from drain_timeout
drain active tie c = drain_from active tie (drain_timeout c) (drain_timeout c / tick_ns + 2) 0

-- main returns, which ends the process, after this time.
abbrev pub main_exit : ℕ
main_exit = 500000000
