-- ===== src/Control/Uniqueness/Strict.antt =====
-- internal/control/uniqueness.go: tick with `strict` set, and the addresses of the admitted backends.
use go_multi_warp.Prelude.{
  ℕ, suc, ℤ, ltb_ℤ, pos, leb, ◌≡◌, refl, sym, ap, subst, ◌∙◌, ◌⊎◌, inl, inr, Bool, true, false, not,
  ◌&&◌, List, [], ◌∷◌, Option, none, some, Bytes, is_empty, arith, if◌then◌else◌, Bool-cases,
  get_elem?, All, ==ℤ_iff, inc_u64,
}
use go_multi_warp.Config.{unique_effort_active}
use go_multi_warp.Pool.Backend.{
  Backend, unknown, in_pool, warming, parked, is_in_pool, AdmitPhase, inc_unique_attempt,
}
use go_multi_warp.Pool.Registry.{
  Pool, index_of, update, admit, pool_force_state, ip_owner, in_pool_ipv4_set,
}
use go_multi_warp.Pool.Registry.Admission.{Unowned, SetAnswers, in_pool_ipv4_set-SetAnswers}
use go_multi_warp.Control.Backoff.{stagger, max_attempts}
use go_multi_warp.Control.Uniqueness.{
  Engine, Settings, World, reg_capacity, must_wait, at_key, sorted_places, try_reregister,
  after_attempt, park_or_admit, collided, is_owner_other, is_warming, is_before, is_probeable,
  decide, decide_probed, visit, tick_from, tick,
}
use go_multi_warp.Control.Uniqueness.Addresses.{
  Indexed, Indexed-get, Out, Told, Told-admit, Kept-park, Kept-set_warming, Kept-unknown,
  Kept-faded,
}

-- What tick keeps: the index is right, the admitted backends have different addresses, and there are
-- none before the first admission.
abbrev pub Diverse : Engine → Type 0
Diverse e = Told e.pool × ((e.first_ok ≡ true) ⊎ All Out e.pool.backends)

abbrev Opened : Engine → Type 0
Opened e = Told e.pool × (e.first_ok ≡ true)

Opened-try_reregister :
    (s : Settings) (world : World) (now : ℕ) (id : ℤ) (e : Engine)
    → Opened e
    → Opened (try_reregister s world now id e).0
unfolding try_reregister
Opened-try_reregister s world now id e (t, o) =
    elim (Bool-cases (must_wait now (stagger s.config.uniqueness) e.last_reg_start)) [
      | inl w ↦ rw (w, if◌then◌else◌) (t, o)
      | inr w ↦ elim (Bool-cases (leb (reg_capacity s.config.uniqueness) e.reg_sem)) [
        | inl c ↦ rw (w, if◌then◌else◌, c, if◌then◌else◌) (t, o)
        | inr c ↦ elim (Bool-cases (world.reregister id)) [
          | inl r ↦
              rw (w, if◌then◌else◌, c, if◌then◌else◌, r, if◌then◌else◌)
                (
                  (Kept-set_warming now id (pool_force_state now id unknown e.pool)).0
                      ((Kept-unknown now id e.pool).0 t),
                  o,
                )
          | inr r ↦ rw (w, if◌then◌else◌, c, if◌then◌else◌, r, if◌then◌else◌) (t, o)
        ]
      ]
    ]

Opened-park_or_admit :
    (s : Settings) (now : ℕ) (id : ℤ) (ip : Bytes) (e : Engine)
    → s.config.uniqueness.strict ≡ true
    → Opened e
    → Opened (park_or_admit s now id ip e)
Opened-park_or_admit s now id ip e h (t, o) =
    rw (h, if◌then◌else◌) ((Kept-park now id ip e.pool).0 t, o)

Opened-after_attempt :
    (s : Settings) (now tries : ℕ) (id : ℤ) (a : Engine × Bool)
    → Opened a.0
    → Opened (after_attempt s now tries id a)
Opened-after_attempt s now tries id (e, true) o = o
Opened-after_attempt s now tries id (e, false) o = o

Opened-collided :
    (s : Settings) (world : World) (i : ℕ) (id : ℤ) (ip : Bytes) (tries : ℕ) (e : Engine)
    → s.config.uniqueness.strict ≡ true
    → Opened e
    → Opened (collided s world i id ip tries e)
unfolding try_reregister
Opened-collided s world i id ip tries e h o =
    elim (Bool-cases (ltb_ℤ (max_attempts s.config.uniqueness) (pos tries))) [
      | inl m ↦
          rw (m, if◌then◌else◌)
            (Opened-park_or_admit s (world.started i) id ip
              (record e { stats = record e.stats { ceiling_hit = inc_u64 e.stats.ceiling_hit } }) h
              o)
      | inr m ↦ elim (Bool-cases s.managed) [
        | inl c ↦
            rw (m, if◌then◌else◌, c, if◌then◌else◌)
              (Opened-after_attempt s (world.finished i) tries id
                (try_reregister s world (world.started i) id e)
                (Opened-try_reregister s world (world.started i) id e o))
        | inr c ↦
            rw (m, if◌then◌else◌, c, if◌then◌else◌)
              (Opened-park_or_admit s (world.started i) id ip e h o)
      ]
    ]

-- An address that InPoolIPv4Set has no other owner for has none, if its backend is not admitted.
Unowned-for :
    (p : Pool) (i : ℕ) (b : Backend) (ip : Bytes) (o : Option ℤ)
    → Indexed p.index 0 p.backends
    → get_elem? p.backends i ≡ some b
    → Out b
    → SetAnswers ip p.backends o
    → is_owner_other b.id o ≡ false
    → Unowned ip p.backends
Unowned-for p i b ip none x g out u f = u
Unowned-for p i b ip (some id) x g out (j, c, h, a, t, k) f =
    let same : id ≡ b.id = (==ℤ_iff id b.id).0 (ground arith) in
    let at_b = Indexed-get p.index 0 i p.backends b x g in
    let at_c = Indexed-get p.index 0 j p.backends c x h in
    let place : j ≡ i = ground (arith, at_b, at_c, ap (λ n. index_of n p.index) (k ∙ same)) in
    let it : c ≡ b = ground (arith, g, h, ap (get_elem? p.backends) place) in absurd (ground arith)

All-Unowned : (ip : Bytes) (bs : List Backend) → All Out bs → Unowned ip bs
All-Unowned ip [] a = tt
All-Unowned ip (b ∷ bs) (o, a) = (inl o, All-Unowned ip bs a)

-- What the theorem asks of the world and the settings.
abbrev pub Answers : World → Type 0
Answers world = (i : ℕ) (ip : Bytes) → world.probe i ≡ some ip → is_empty ip ≡ false

-- The engine at which a collision is settled.
abbrev noted : ℕ → Engine → Engine
noted i e = record e {
  pool = update i (λ d. (inc_unique_attempt d).0) e.pool;
  stats = record e.stats { collisions = inc_u64 e.stats.collisions };
}

module _ (s : Settings) (world : World) (i : ℕ) (b : Backend) (ip : Bytes) (e : Engine)
    (f : unique_effort_active s.config ≡ true) (o : e.first_ok ≡ true) where
  decide_owned :
      is_owner_other b.id (ip_owner ip (in_pool_ipv4_set e.pool)) ≡ true
      → decide s world i b ip e ≡ collided s world i b.id ip (suc b.unique_tries) (noted i e)
  unfolding decide
  decide_owned w = simp (o, f, w, if◌then◌else◌) refl

  decide_free :
      is_owner_other b.id (ip_owner ip (in_pool_ipv4_set e.pool)) ≡ false
      → Told (admit (world.started i) b.id ip e.pool).0
      → Opened (decide s world i b ip e)
  unfolding decide
  decide_free w t = rw (o, if◌then◌else◌, f, if◌then◌else◌, w, if◌then◌else◌) (t, refl)

Opened-decide :
    (s : Settings) (world : World) (i : ℕ) (b : Backend) (ip : Bytes) (e : Engine)
    → s.config.uniqueness.strict ≡ true
    → unique_effort_active s.config ≡ true
    → is_empty ip ≡ false
    → get_elem? e.pool.backends i ≡ some b
    → Out b
    → Opened e
    → Opened (decide s world i b ip e)
unfolding decide inc_unique_attempt
Opened-decide s world i b ip e h f n g out (t, o) =
    elim (Bool-cases (is_owner_other b.id (ip_owner ip (in_pool_ipv4_set e.pool)))) [
      | inl w ↦
          let kept =
            Kept-faded (λ d. (inc_unique_attempt d).0) e.pool i (λ d. inr (refl, refl))
              (λ d. refl) in
          subst Opened (sym (decide_owned s world i b ip e f o w))
            (Opened-collided s world i b.id ip (suc b.unique_tries) (noted i e) h (kept.0 t, o))
      | inr w ↦
          let free =
            Unowned-for e.pool i b ip (ip_owner ip (in_pool_ipv4_set e.pool)) t.0 g out
              (in_pool_ipv4_set-SetAnswers ip e.pool n) w in
          decide_free s world i b ip e f o w (Told-admit (world.started i) b.id ip e.pool n free t)
    ]

Diverse-decide :
    (s : Settings) (world : World) (i : ℕ) (b : Backend) (ip : Bytes) (e : Engine)
    → s.config.uniqueness.strict ≡ true
    → unique_effort_active s.config ≡ true
    → is_empty ip ≡ false
    → get_elem? e.pool.backends i ≡ some b
    → Out b
    → Diverse e
    → Diverse (decide s world i b ip e)
unfolding decide
Diverse-decide s world i b ip e h f n g out (t, inl o) =
    let (u, p) = Opened-decide s world i b ip e h f n g out (t, o) in (u, inl p)
Diverse-decide s world i b ip e h f n g out (t, inr a) = elim (Bool-cases e.first_ok) [
  | inl o ↦ let (u, p) = Opened-decide s world i b ip e h f n g out (t, o) in (u, inl p)
  | inr o ↦
      rw (o, if◌then◌else◌)
        (
          Told-admit (world.started i) b.id ip e.pool n (All-Unowned ip e.pool.backends a) t,
          inl refl,
        )
]

Out-warming : (a : AdmitPhase) → is_warming a ≡ true → is_in_pool a ≡ false
Out-warming warming h = refl
Out-warming in_pool h = absurd (ground arith)
Out-warming parked h = absurd (ground arith)

Diverse-visit :
    (s : Settings) (world : World) (now i : ℕ) (e : Engine) (o : Option Backend)
    → s.config.uniqueness.strict ≡ true
    → unique_effort_active s.config ≡ true
    → Answers world
    → get_elem? e.pool.backends i ≡ o
    → Diverse e
    → Diverse (visit s world now i e o)
Diverse-visit s world now i e none h f n g d = d
Diverse-visit s world now i e (some b) h f n g d =
    elim (Bool-cases (
      is_warming b.admit
      && not (is_before now (at_key b.id e.next_retry))
      && is_probeable b.state)) [
        | inl v ↦
            rw (v, if◌then◌else◌) (step (world.probe i) refl (Out-warming b.admit (ground arith)))
        | inr v ↦ rw (v, if◌then◌else◌) d
      ]
  where
    step : (a : Option Bytes) → world.probe i ≡ a → Out b → Diverse (decide_probed s world i b e a)
    step none q out = d
    step (some ip) q out = Diverse-decide s world i b ip e h f (n i ip q) g out d

Diverse-tick_from :
    (s : Settings) (world : World) (now : ℕ) (is : List ℕ) (e : Engine)
    → s.config.uniqueness.strict ≡ true
    → unique_effort_active s.config ≡ true
    → Answers world
    → Diverse e
    → Diverse (tick_from s world now is e)
unfolding tick_from
Diverse-tick_from s world now [] e h f n d = d
Diverse-tick_from s world now (i ∷ is) e h f n d = elim (Bool-cases (world.cancelled i)) [
  | inl c ↦ rw (c, if◌then◌else◌) d
  | inr c ↦
      rw (c, if◌then◌else◌)
        (Diverse-tick_from s world now is (visit s world now i e (get_elem? e.pool.backends i)) h f
          n (Diverse-visit s world now i e (get_elem? e.pool.backends i) h f n refl d))
]

-- A tick keeps the addresses of the admitted backends pairwise different, if `strict` is set and the
-- effort for uniqueness is active, whatever the probes and the controller answer: no probe gives an
-- empty address. The index of the pool is right before and after it, and there is no admitted backend
-- before the first admission.
pub tick-Diverse :
    (s : Settings) (world : World) (now : ℕ) (e : Engine)
    → s.config.uniqueness.strict ≡ true
    → unique_effort_active s.config ≡ true
    → Answers world
    → Diverse e
    → Diverse (tick s world now e)
unfolding tick
tick-Diverse s world now e h f n d =
    Diverse-tick_from s world now (sorted_places e.pool.backends) e h f n d
