-- ===== src/Config/Addrs.antt =====
-- The backends that config.go derives: one for each instance, on consecutive local ports.
use go_multi_warp.Prelude.{
  ℕ, zero, suc, ◌+◌, ◌<◌, ◌≤◌, ℤ, pos, pos_part, ◌+ℤ◌, ◌<ℤ◌, IsInt64, ◌≡◌, refl, ap, ◌∙◌, true,
  List, [], ◌∷◌, ◌++◌, some, Bytes, codes, arith, Bool-cases, inl, inr, is_empty, length, get_elem?,
  if◌then◌else◌,
}
use go_multi_warp.Std.{atoi, itoa, trim_space}
use go_multi_warp.Std.Decimal.{atoi-itoa}
use go_multi_warp.Config.{Config, BackendAddr, local_addrs, backend_addrs}
use go_multi_warp.Config.Env.{numbered}

abbrev local_addr : ℤ → ℕ → BackendAddr
local_addr base i = record { id = pos i; addr = codes "127.0.0.1:" ++ itoa (base +ℤ pos i) }

length-local_addrs : (base : ℤ) (i n : ℕ) → length (local_addrs base i n) ≡ n
unfolding local_addrs
length-local_addrs base i zero = refl
length-local_addrs base i (suc n) = ap suc (length-local_addrs base (suc i) n)

local_addrs-get :
    (base : ℤ) (i n k : ℕ)
    → k < n
    → get_elem? (local_addrs base i n) k ≡ some (local_addr base (i + k))
unfolding local_addrs
local_addrs-get base i zero k h = elim h [ ]
local_addrs-get base i (suc n) zero h =
    let e : i ≡ i + 0 = omega arith in ap (λ j. some (local_addr base j)) e
local_addrs-get base i (suc n) (suc k) h =
    let e : suc i + k ≡ i + suc k = omega arith in
    rw (← e) (local_addrs-get base (suc i) n k (omega arith))

local_addrs_first :
    (base : ℤ) (n k : ℕ) → k < n → get_elem? (local_addrs base 0 n) k ≡ some (local_addr base k)
local_addrs_first base n k h =
    let e : 0 + k ≡ k = omega arith in
    local_addrs-get base 0 n k h ∙ ap (λ j. some (local_addr base j)) e

-- Without configured backends there is one for each instance.
pub length-backend_addrs :
    (c : Config) → is_empty c.backends ≡ true → length (backend_addrs c) ≡ pos_part c.instances
unfolding backend_addrs
length-backend_addrs c h =
    rw (h, if◌then◌else◌) (length-local_addrs c.base_port 0 (pos_part c.instances))

-- Without configured backends, instance k has the id k, and its address is the local host with a port
-- that reads as the base port plus k.
backend_addrs-get :
    (c : Config) (k : ℕ)
    → is_empty c.backends ≡ true
    → pos k <ℤ c.instances
    → IsInt64 (c.base_port +ℤ pos k)
    → (b : BackendAddr) × (port : Bytes) × (get_elem? (backend_addrs c) k ≡ some b)
      × (b.id ≡ pos k)
      × (b.addr ≡ codes "127.0.0.1:" ++ port)
      × (atoi port ≡ some (c.base_port +ℤ pos k))
unfolding backend_addrs
backend_addrs-get c k none_given h w = (
  local_addr c.base_port k,
  itoa (c.base_port +ℤ pos k),
  rw (none_given, if◌then◌else◌)
      (local_addrs_first c.base_port (pos_part c.instances) k (omega arith)),
  refl,
  refl,
  atoi-itoa (c.base_port +ℤ pos k) w,
)

-- The ids rise along the list, and the first is at least `low`.
abbrev pub Rising : ℕ → List BackendAddr → Type 0
Rising low [] = Unit {0}
Rising low (b ∷ bs) = (i : ℕ) × (b.id ≡ pos i) × (low ≤ i) × Rising (suc i) bs

Rising-mono :
    (low lower : ℕ) (bs : List BackendAddr) → lower ≤ low → Rising low bs → Rising lower bs
Rising-mono low lower [] h r = tt
Rising-mono low lower (b ∷ bs) h (i, e, l, r) = (i, e, omega arith, r)

-- The backends read from MULTI_WARP_BACKENDS have rising ids: no two share one, though parts that are
-- blank are skipped.
numbered-Rising : (low : ℕ) (parts : List Bytes) → Rising low (numbered low parts)
unfolding numbered
numbered-Rising low [] = tt
numbered-Rising low (p ∷ ps) = elim (Bool-cases (is_empty (trim_space p))) [
  | inl e ↦
      rw (e, if◌then◌else◌)
        (Rising-mono (suc low) low (numbered (suc low) ps) (omega arith)
          (numbered-Rising (suc low) ps))
  | inr e ↦ rw (e, if◌then◌else◌) (low, refl, omega arith, numbered-Rising (suc low) ps)
]
