-- ===== src/Pool/Backend/History.antt =====
-- The histories of one backend: the calls of its methods that change it, each at a clock reading.
use go_multi_warp.Prelude.{ℕ, ◌≤◌, List, [], ◌∷◌, Bytes}
use go_multi_warp.Pool.Backend.{
  Backend, ProbeInfo, State, AdmitPhase, is_selectable, try_acquire, release, mark_success,
  mark_failure, mark_probe_ok, mark_probe_fail, force_state, set_admit, inc_unique_attempt,
}

pub data Event : Type 0 where
  polls acquires releases succeeds attempts : Event
  failing : Bytes → Event
  probe_ok : ProbeInfo → Event
  probe_fails : Bytes → Event
  forced : State → Event
  admitted : AdmitPhase → Bytes → Event

unfoldable pub apply : ℕ → Event → Backend → Backend
apply now polls b = (is_selectable now b).0
apply now acquires b = (try_acquire now b).0
apply now releases b = release b
apply now succeeds b = mark_success now b
apply now attempts b = (inc_unique_attempt b).0
apply now (failing reason) b = mark_failure now reason b
apply now (probe_ok info) b = mark_probe_ok now info b
apply now (probe_fails reason) b = mark_probe_fail now reason b
apply now (forced s) b = force_state now s b
apply now (admitted phase ip) b = set_admit now phase ip b

unfoldable pub run : List (ℕ × Event) → Backend → Backend
run [] b = b
run ((now, e) ∷ es) b = run es (apply now e b)

-- The readings do not go back, from `start` on and up to `end`.
abbrev pub Within : ℕ → ℕ → List (ℕ × Event) → Type 0
Within start end [] = start ≤ end
Within start end ((now, e) ∷ es) = (start ≤ now) × Within now end es
