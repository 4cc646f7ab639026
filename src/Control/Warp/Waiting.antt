-- ===== src/Control/Warp/Waiting.antt =====
-- internal/control/warpctl_linux.go: the loop of waitReady ends.
use go_multi_warp.Prelude.{
  ℕ, zero, suc, ◌+◌, ◌*◌, ◌/◌, ◌≤◌, ◌<◌, ℤ, pos_part, sub_ℕ, ltb_ℤ, ◌≡◌, refl, Bool, true, false,
  Option, some, arith, if◌then◌else◌,
}
use go_multi_warp.Control.Warp.{
  Host, Machine, wcli, status, sleep, millis, is_ready, wait_ready, wait_rounds, Command,
}

-- It gives a machine whose clock shows at most `limit`.
abbrev pub EndsBy : ℕ → {A : Type 0} → Option (Machine × A) → Type 0
EndsBy limit {A} o = (m : Machine) × (a : A) × (o ≡ some (m, a)) × (m.clock ≤ limit)

pub EndsBy-if :
    (limit : ℕ) {A : Type 0} (t : Bool) (a b : Option (Machine × A))
    → (t ≡ true → EndsBy limit a)
    → (t ≡ false → EndsBy limit b)
    → EndsBy limit (if t then a else b)
EndsBy-if limit true a b x y = x refl
EndsBy-if limit false a b x y = y refl

is_late :
    (timeout : ℤ) (start clock : ℕ)
    → pos_part timeout + start < clock
    → ltb_ℤ timeout (sub_ℕ clock start) ≡ true
is_late timeout start clock h = ground arith

is_early :
    (timeout : ℤ) (start clock : ℕ)
    → ltb_ℤ timeout (sub_ℕ clock start) ≡ false
    → clock ≤ start + pos_part timeout
is_early timeout start clock h = ground arith

module _ (h : Host) (longest : ℕ) (quick : (m : Machine) (c : Command) → h.takes m c ≤ longest)
    (timeout : ℤ) (start : ℕ) where
  pub wait_ready-EndsBy :
      (k : ℕ) (m : Machine)
      → pos_part timeout + start < m.clock + k * 800000000
      → m.clock ≤ start + pos_part timeout + 800000000 + longest
      → EndsBy
          (start + pos_part timeout + 800000000 + longest)
          (wait_ready h timeout (suc k) start m)
  unfolding wait_ready wcli
  wait_ready-EndsBy zero m l u =
      let late = is_late timeout start m.clock (omega arith) in
      EndsBy-if _ (ltb_ℤ timeout (sub_ℕ m.clock start)) _ _ (λ t. (m, false, refl, u))
        (λ f. absurd (cc (late, f)))
  wait_ready-EndsBy (suc k) m l u =
      EndsBy-if _ (ltb_ℤ timeout (sub_ℕ m.clock start)) _ _ (λ t. (m, false, refl, u))
        (λ f.
          let early = is_early timeout start m.clock f in
          let brief = quick m status in
          EndsBy-if _ (is_ready (h.answers m status)) _ _
            (λ t. ((wcli h status m).0, true, refl, omega arith))
            (λ g.
              wait_ready-EndsBy k (sleep (millis 800) (wcli h status m).0) (omega arith)
                (omega arith)))

pub wait_rounds_lem :
    (timeout : ℤ) → (k : ℕ) × (wait_rounds timeout ≡ suc k) × (pos_part timeout < k * 800000000)
unfolding wait_rounds
wait_rounds_lem timeout = (pos_part timeout / 800000000 + 1, omega arith, omega arith)
