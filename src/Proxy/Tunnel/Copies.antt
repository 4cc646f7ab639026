-- ===== src/Proxy/Tunnel/Copies.antt =====
-- What a tunnel carries and when it ends.
use go_multi_warp.Prelude.{
  ℕ, ◌+◌, ◌≤◌, ◌<◌, ℤ, ltb, leb, ◌≡◌, refl, sym, ap, ◌∙◌, Bool, true, false, ◌||◌, List, [], ◌∷◌,
  ◌++◌, Option, none, some, Bytes, length, take, arith, if◌then◌else◌, append-nil, take-append,
  take-length, append_assoc, Bool-cases, inl, inr,
}
use go_multi_warp.Proxy.Tunnel.{
  idle_timeout, close_time, Arrival, piece, finish, broken, finished, read_failed, write_failed,
  timed_out, Copied, stopped, is_closed, overrun, after_write, with_sent, copy_from,
  copy_bidirectional,
}

-- What a peer sends until its stream ends.
unfoldable pub arrived : List Arrival → Bytes
arrived [] = []
arrived (finish gap ∷ es) = []
arrived (broken gap ∷ es) = []
arrived (piece gap p took written ∷ es) = p ++ arrived es

abbrev pub StartsWith : Bytes → Bytes → Type 0
StartsWith s part = (rest : Bytes) × (part ++ rest ≡ s)

-- A stream that ends, with no pause as long as the timeout, and writes that succeed.
abbrev pub Flows : ℕ → List Arrival → Type 0
Flows idle [] = ⊥
Flows idle (finish gap ∷ es) = gap < idle
Flows idle (broken gap ∷ es) = ⊥
Flows idle (piece gap p took written ∷ es) = (gap < idle) × (length p ≤ written) × Flows idle es

overrun-sent : (idle : ℕ) (close : Option ℕ) (now : ℕ) → (overrun idle close now).sent ≡ []
overrun-sent idle none now = refl
overrun-sent idle (some c) now = ground arith

StartsWith-cut : (written : ℕ) (p s : Bytes) → StartsWith (p ++ s) (take written p ++ [])
StartsWith-cut written p s =
    let (ys, e) = take-append written p in
    (
      ys ++ s,
      ap (λ z. z ++ (ys ++ s)) (append-nil (take written p))
          ∙ (sym (append_assoc (take written p) ys s) ∙ ap (λ z. z ++ s) e),
    )

StartsWith-whole :
    (written : ℕ) (p s t : Bytes)
    → ltb written (length p) ≡ false
    → StartsWith s t
    → StartsWith (p ++ s) (take written p ++ t)
StartsWith-whole written p s t f (rest, e) = (
  rest,
  ap (λ z. (z ++ t) ++ rest) (take-length written p (ground arith))
      ∙ (append_assoc p t rest ∙ ap (λ z. p ++ z) e),
)

StartsWith-written :
    (written : ℕ) (p s : Bytes) (now : ℕ) (rest : Copied)
    → StartsWith s rest.sent
    → StartsWith
        (p ++ s)
        (take written p ++ (if ltb written (length p) then stopped write_failed now else rest).sent)
StartsWith-written written p s now rest h = elim (Bool-cases (ltb written (length p))) [
  | inl t ↦ rw (t, if◌then◌else◌) (StartsWith-cut written p s)
  | inr f ↦ rw (f, if◌then◌else◌) (StartsWith-whole written p s rest.sent f h)
]

after_write-StartsWith :
    (close : Option ℕ) (now : ℕ) (p s : Bytes) (written : ℕ) (rest : Copied)
    → StartsWith s rest.sent
    → StartsWith (p ++ s) (take written p ++ (after_write close now p written rest).sent)
after_write-StartsWith none now p s written rest h = StartsWith-written written p s now rest h
after_write-StartsWith (some c) now p s written rest h = elim (Bool-cases (leb c now)) [
  | inl t ↦ rw (t, if◌then◌else◌) (StartsWith-cut written p s)
  | inr f ↦ rw (f, if◌then◌else◌) (StartsWith-written written p s now rest h)
]

StartsWith-none : (s t : Bytes) → t ≡ [] → StartsWith s t
StartsWith-none s t e = (s, ap (λ z. z ++ s) e)

-- The two ends of a Read: its deadline, or what it gives.
StartsWith-if :
    (late : Bool) (idle : ℕ) (close : Option ℕ) (now : ℕ) (s : Bytes) (r : Copied)
    → StartsWith s r.sent
    → StartsWith s (if late then overrun idle close now else r).sent
StartsWith-if true idle close now s r h = StartsWith-none s _ (overrun-sent idle close now)
StartsWith-if false idle close now s r h = h

copy_from-StartsWith :
    (idle : ℕ) (close : Option ℕ) (es : List Arrival) (now : ℕ)
    → StartsWith (arrived es) (copy_from idle close es now).sent
unfolding copy_from arrived
copy_from-StartsWith idle close [] now = StartsWith-none [] _ (overrun-sent idle close now)
copy_from-StartsWith idle close (finish gap ∷ es) now =
    StartsWith-if (leb idle gap || is_closed close (now + gap)) idle close now []
      (stopped finished (now + gap)) ([], refl)
copy_from-StartsWith idle close (broken gap ∷ es) now =
    StartsWith-if (leb idle gap || is_closed close (now + gap)) idle close now []
      (stopped read_failed (now + gap)) ([], refl)
copy_from-StartsWith idle close (piece gap p took written ∷ es) now =
    let rest = copy_from idle close es (now + gap + took) in
    StartsWith-if (leb idle gap || is_closed close (now + gap)) idle close now (p ++ arrived es)
      (with_sent (take written p) (after_write close (now + gap + took) p written rest))
      (after_write-StartsWith close (now + gap + took) p (arrived es) written rest
        (copy_from-StartsWith idle close es (now + gap + took)))

copy_from-Flows :
    (idle : ℕ) (es : List Arrival) (now : ℕ)
    → Flows idle es
    → ((copy_from idle none es now).sent ≡ arrived es)
      × ((copy_from idle none es now).reason ≡ finished)
unfolding copy_from arrived
copy_from-Flows idle [] now h = absurd h
copy_from-Flows idle (broken gap ∷ es) now h = absurd h
copy_from-Flows idle (finish gap ∷ es) now h = ground arith
copy_from-Flows idle (piece gap p took written ∷ es) now (g, w, h) =
    let (all, end) = copy_from-Flows idle es (now + gap + took) h in
    let whole = take-length written p w in ground arith

copy_from-at :
    (idle c : ℕ) (es : List Arrival) (now : ℕ) → now ≤ c → (copy_from idle (some c) es now).at ≤ c
unfolding copy_from
copy_from-at idle c [] now h = ground arith
copy_from-at idle c (finish gap ∷ es) now h = ground arith
copy_from-at idle c (broken gap ∷ es) now h = ground arith
copy_from-at idle c (piece gap p took written ∷ es) now h =
    elim (Bool-cases (leb c (now + gap + took))) [
      | inl t ↦ ground arith
      | inr f ↦ let rest = copy_from-at idle c es (now + gap + took) (ground arith) in ground arith
    ]

abbrev pub EndsBy : Option ℕ → ℕ → Type 0
EndsBy none t = Unit {0}
EndsBy (some c) t = t ≤ c

copy_from-EndsBy :
    (idle : ℕ) (close : Option ℕ) (es : List Arrival) → EndsBy close (copy_from idle close es 0).at
copy_from-EndsBy idle none es = tt
copy_from-EndsBy idle (some c) es = copy_from-at idle c es 0 (omega arith)

-- Whatever the peers send and however the writes end, each side is sent a first part of what the other one
-- sent, byte for byte; and with a maximal duration in force both directions have ended when it is over.
pub copy_bidirectional-StartsWith :
    (timeout : ℤ) (is_streaming : Bool) (max_duration : ℤ) (from_a from_b : List Arrival)
    → let r = copy_bidirectional timeout is_streaming max_duration from_a from_b in
      StartsWith (arrived from_b) r.0.sent
      × StartsWith (arrived from_a) r.1.sent
      × EndsBy (close_time is_streaming max_duration) r.0.at
      × EndsBy (close_time is_streaming max_duration) r.1.at
unfolding copy_bidirectional
copy_bidirectional-StartsWith timeout is_streaming max_duration from_a from_b =
    let idle = idle_timeout timeout is_streaming in
    let close = close_time is_streaming max_duration in
    (
      copy_from-StartsWith idle close from_b 0,
      copy_from-StartsWith idle close from_a 0,
      copy_from-EndsBy idle close from_b,
      copy_from-EndsBy idle close from_a,
    )

-- A tunnel with no maximal duration in force in which `b` keeps sending, with no pause as long as the
-- timeout, until its stream ends, while `a` sends nothing: all that `b` sent is delivered, but the
-- direction from `a` times out after the timeout, however long the other one goes on.
pub copy_bidirectional-silent :
    (timeout : ℤ) (is_streaming : Bool) (max_duration : ℤ) (from_b : List Arrival)
    → close_time is_streaming max_duration ≡ none
    → Flows (idle_timeout timeout is_streaming) from_b
    → let r = copy_bidirectional timeout is_streaming max_duration [] from_b in
      (r.0.sent ≡ arrived from_b)
      × (r.0.reason ≡ finished)
      × (r.1.reason ≡ timed_out)
      × (r.1.at ≡ idle_timeout timeout is_streaming)
unfolding copy_bidirectional copy_from
copy_bidirectional-silent timeout is_streaming max_duration from_b e h =
    let idle = idle_timeout timeout is_streaming in
    let (all, end) = copy_from-Flows idle from_b 0 h in rw e (all, end, refl, omega arith)
