-- ===== src/Pool/Backend/Race.antt =====
-- internal/pool/backend.go: TryAcquire and Release of one backend by many goroutines at once. Each step is
-- one atomic operation on `inflight`; they interleave in any order.
use go_multi_warp.Prelude.{
  ℕ, suc, ◌+◌, ◌≤◌, ◌<◌, ℤ, pos, negsuc, leb_ℤ, ◌≤ℤ◌, add32, to_int32_id, IsInt32, ◌+ℤ◌, ◌≡◌, ◌≢◌,
  sym, ap, ◌∙◌, true, false, List, some, get_elem?, set, total, total-set, le-total, arith,
}

-- Where a goroutine is: `asking` is about to load, `loaded` is about to compare and swap.
pub data Pc : Type 0 where
  resting asking holding : Pc
  loaded : ℤ → Pc

-- `inflight` before and after, for a backend with this limit.
pub data Move (max inflight : ℤ) : Pc → ℤ → Pc → Type 0 where
  ask : Move max inflight resting inflight asking  -- IsSelectable was true
  load : Move max inflight asking inflight (loaded inflight)
  full : {cur : ℤ} → leb_ℤ max cur ≡ true → Move max inflight (loaded cur) inflight resting
  swap :
      {cur : ℤ}
      → leb_ℤ max cur ≡ false
      → inflight ≡ cur
      → Move max inflight (loaded cur) (add32 cur (pos 1)) holding
  lose :
      {cur : ℤ}
      → leb_ℤ max cur ≡ false
      → inflight ≢ cur
      → Move max inflight (loaded cur) inflight asking
  give : Move max inflight holding (add32 inflight (negsuc 0)) resting

pub record System : Type 0 where
  pub inflight : ℤ
  pub threads : List Pc

pub data Step (max : ℤ) (s : System) : System → Type 0 where
  pick :
      (i : ℕ) {p q : Pc} {n : ℤ}
      → get_elem? s.threads i ≡ some p
      → Move max s.inflight p n q
      → Step max s (record { inflight = n; threads = set s.threads i q })

pub data Reach (max : ℤ) (s : System) : System → Type 0 where
  start : Reach max s s
  later : {t u : System} → Reach max s t → Step max t u → Reach max s u

-- 1 for a goroutine that has a slot.
abbrev pub holds : Pc → ℕ
holds holding = 1
holds _ = 0

-- The slots that are out are counted, and there are at most as many as the backend has.
abbrev pub Exact : ℤ → System → Type 0
Exact max s = (s.inflight ≡ pos (total holds s.threads)) × (pos (total holds s.threads) ≤ℤ max)

slot_taken : (k : ℕ) → suc k < 0x80000000 → add32 (pos k) (pos 1) ≡ pos (suc k)
slot_taken k h = to_int32_id (pos k +ℤ pos 1) (ground arith) ∙ (ground arith)

slot_given : (k : ℕ) → suc k < 0x80000000 → add32 (pos (suc k)) (negsuc 0) ≡ pos k
slot_given k h = to_int32_id (pos (suc k) +ℤ negsuc 0) (ground arith) ∙ (ground arith)

Move-inflight :
    {max a b : ℤ} {p q : Pc} (k k' : ℕ)
    → IsInt32 max
    → Move max a p b q
    → holds p ≤ k
    → k' + holds p ≡ k + holds q
    → a ≡ pos k
    → pos k ≤ℤ max
    → (b ≡ pos k') × (pos k' ≤ℤ max)
Move-inflight {max} k k' small (swap {cur} free same) h c e l =
    let read : cur ≡ pos k = sym same ∙ e in
    let room : leb_ℤ max (pos k) ≡ false = ap (leb_ℤ max) (sym read) ∙ free in
    let fits : suc k < 0x80000000 = ground arith in
    (ap (λ n. add32 n (pos 1)) read ∙ slot_taken k fits ∙ ap pos (omega arith), ground arith)
Move-inflight {max} k k' small give h c e l = (
  ap (λ n. add32 n (negsuc 0)) (e ∙ ap pos (omega arith)) ∙ slot_given k' (omega arith),
  omega arith,
)
Move-inflight k k' small mv h c e l = (e ∙ ap pos (omega arith), omega arith)

Step-Exact : {max : ℤ} {s t : System} → IsInt32 max → Step max s t → Exact max s → Exact max t
Step-Exact {s} small (pick i {p} {q} at mv) (e, l) =
    Move-inflight (total holds s.threads) (total holds (set s.threads i q)) small mv
      (le-total holds s.threads i p at) (total-set holds s.threads i p q at) e l

-- From a state in which the count is exact, every interleaving of the atomic steps of TryAcquire and
-- Release keeps `inflight` equal to the number of goroutines that have a slot, and at most the limit: a
-- comparison that is lost gives no slot, and the int32 counter does not wrap.
pub Reach-Exact : {max : ℤ} {s t : System} → IsInt32 max → Exact max s → Reach max s t → Exact max t
Reach-Exact small x start = x
Reach-Exact small x (later r st) = Step-Exact small st (Reach-Exact small x r)
