-- ===== src/Proxy/Wire/Reads.antt =====
-- Reading back what was written, for the connections of internal/proxy.
use go_multi_warp.Prelude.{ℕ, zero, suc, ◌≡◌, refl, ap, [], ◌∷◌, ◌++◌, Bytes, length}
use go_multi_warp.Proxy.Wire.{Wire, Ended, failed, returned, then_on, return, read_full}

-- Reading as many bytes as were written gives them back, and leaves what follows.
pub read_full-append :
    {E : Type 0} (u rest : Bytes) (e : E) (w : Wire)
    → read_full (length u) e (record w { recv = u ++ rest })
      ≡ (returned u, record w { recv = rest })
unfolding read_full
read_full-append [] rest e w = refl
read_full-append (c ∷ u) rest e w =
    ap (then_on (λ cs. return (c ∷ cs))) (read_full-append u rest e w)

-- What a run of bytes read and left.
abbrev pub Took : {E : Type 0} → ℕ → Wire → Ended E Bytes × Wire → Type 0
Took n w (failed e, v) = Unit {0}
Took n w (returned u, v) =
    (length u ≡ n) × (w.recv ≡ u ++ v.recv) × (v ≡ record w { recv = v.recv })

Took-cons :
    {E : Type 0} (c n : ℕ) (cs : Bytes) (w : Wire) (r : Ended E Bytes × Wire)
    → Took n (record w { recv = cs }) r
    → Took (suc n) (record w { recv = c ∷ cs }) (then_on (λ u. return (c ∷ u)) r)
Took-cons c n cs w (failed e, v) t = tt
Took-cons c n cs w (returned u, v) (l, s, k) = (ap suc l, ap (◌∷◌ c) s, k)

-- What was read is the front of what there was, and has the length asked for.
pub read_full-Took :
    {E : Type 0} (n : ℕ) (e : E) (s : Bytes) (w : Wire)
    → Took n (record w { recv = s }) (read_full n e (record w { recv = s }))
unfolding read_full
read_full-Took zero e s w = (refl, refl, refl)
read_full-Took (suc n) e [] w = tt
read_full-Took (suc n) e (c ∷ cs) w =
    Took-cons c n cs w (read_full n e (record w { recv = cs })) (read_full-Took n e cs w)
