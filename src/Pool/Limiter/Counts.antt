-- ===== src/Pool/Limiter/Counts.antt =====
-- The entries of the limiter of pool.go, and the leases that are out, counted by IP.
use go_multi_warp.Prelude.{
  ℕ, zero, suc, ◌+◌, ◌≤◌, ◌≡◌, refl, ap, List, [], ◌∷◌, some, Bytes, bytes_eq, bytes_eq_iff, arith,
  length, get_elem?, if◌then◌else◌,
}
use go_multi_warp.Pool.Limiter.{IpState, find_ip, put_ip, or_fresh}

-- The state of an IP, a fresh one if it has none yet.
abbrev pub state_of : Bytes → List (Bytes × IpState) → IpState
state_of ip m = or_fresh (find_ip ip m)

-- An update is seen at its IP and nowhere else.
pub state_of-put_ip :
    (ip j : Bytes) (st : IpState) (m : List (Bytes × IpState))
    → state_of j (put_ip ip st m) ≡ (if bytes_eq ip j then st else state_of j m)
unfolding find_ip put_ip
state_of-put_ip ip j st [] = ground arith
state_of-put_ip ip j st ((k, old) ∷ m) =
    ground
      (arith, bytes_eq_iff k ip, bytes_eq_iff k j, bytes_eq_iff ip j, state_of-put_ip ip j st m)

-- How many of the leases are an IP's.
unfoldable pub count : Bytes → List Bytes → ℕ
count ip [] = 0
count ip (k ∷ ks) = (if bytes_eq k ip then 1 else 0) + count ip ks

unfoldable pub remove : ℕ → List Bytes → List Bytes
remove k [] = []
remove zero (x ∷ xs) = xs
remove (suc k) (x ∷ xs) = x ∷ remove k xs

pub count-remove :
    (k : ℕ) (ip j : Bytes) (xs : List Bytes)
    → get_elem? xs k ≡ some ip
    → count j xs ≡ (if bytes_eq ip j then 1 else 0) + count j (remove k xs)
unfolding count remove
count-remove k ip j [] e = cc
count-remove zero ip j (x ∷ xs) e = let same : x ≡ ip = ground arith in rw same
count-remove (suc k) ip j (x ∷ xs) e = omega (arith, count-remove k ip j xs e)

pub length-remove :
    (k : ℕ) (ip : Bytes) (xs : List Bytes)
    → get_elem? xs k ≡ some ip
    → length xs ≡ suc (length (remove k xs))
unfolding remove
length-remove k ip [] e = cc
length-remove zero ip (x ∷ xs) e = refl
length-remove (suc k) ip (x ∷ xs) e = ap suc (length-remove k ip xs e)

pub count-le-length : (ip : Bytes) (xs : List Bytes) → count ip xs ≤ length xs
unfolding count
count-le-length ip [] = omega arith
count-le-length ip (x ∷ xs) = ground (arith, count-le-length ip xs)
