-- ===== src/Control/Uniqueness/Passes.antt =====
-- internal/control/uniqueness.go: any number of passes of tick, from a new engine on.
use go_multi_warp.Prelude.{ℕ, ◌≡◌, true, List, [], ◌∷◌, inl, inr, All}
use go_multi_warp.Config.{unique_effort_active}
use go_multi_warp.Pool.Backend.{Backend}
use go_multi_warp.Pool.Registry.{Pool}
use go_multi_warp.Control.Uniqueness.{Engine, Settings, World, new_engine, tick}
use go_multi_warp.Control.Uniqueness.Addresses.{Apart, Differ, Indexed, Out}
use go_multi_warp.Control.Uniqueness.Strict.{Diverse, Answers, tick-Diverse}

-- One pass after the other, each with what it finds outside and its time.
unfoldable pub tick_all : Settings → List (World × ℕ) → Engine → Engine
tick_all s [] e = e
tick_all s ((world, now) ∷ passes) e = tick_all s passes (tick s world now e)

tick_all-Diverse :
    (s : Settings) (passes : List (World × ℕ)) (e : Engine)
    → s.config.uniqueness.strict ≡ true
    → unique_effort_active s.config ≡ true
    → All (λ pass. Answers pass.0) passes
    → Diverse e
    → Diverse (tick_all s passes e)
unfolding tick_all
tick_all-Diverse s [] e h f a d = d
tick_all-Diverse s ((world, now) ∷ passes) e h f (n, a) d =
    tick_all-Diverse s passes (tick s world now e) h f a (tick-Diverse s world now e h f n d)

Apart-Out : (bs : List Backend) → All Out bs → Apart bs
Apart-Out [] o = tt
Apart-Out (b ∷ bs) (x, o) = (all_differ bs, Apart-Out bs o)
  where
    all_differ : (cs : List Backend) → All (Differ b) cs
    all_differ [] = tt
    all_differ (c ∷ cs) = (inl x, all_differ cs)

-- However many passes of tick a new engine has made, and whatever the probes and the controller answered:
-- with `strict` set and the effort for uniqueness active, no two admitted backends have the same
-- address. The pool starts with no admitted backend and a right index, and no probe gives an empty
-- address.
pub tick_all-Apart :
    (s : Settings) (passes : List (World × ℕ)) (p : Pool)
    → s.config.uniqueness.strict ≡ true
    → unique_effort_active s.config ≡ true
    → All (λ pass. Answers pass.0) passes
    → Indexed p.index 0 p.backends
    → All Out p.backends
    → Apart (tick_all s passes (new_engine p)).pool.backends
unfolding new_engine
tick_all-Apart s passes p h f a x o =
    (tick_all-Diverse s passes (new_engine p) h f a ((x, Apart-Out p.backends o), inr o)).0.1
