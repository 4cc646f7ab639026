-- ===== src/Proxy/Tunnel.antt =====
-- internal/proxy/tunnel.go: CopyBidirectional and idleConn. Time is in nanoseconds since the tunnel was
-- opened. What arrives from a peer, and how its writes end, are given; when a deadline and a piece of
-- data fall on the same instant, the deadline comes first.
pub mod Copies
use go_multi_warp.Prelude.{
  ℕ, ◌+◌, ℤ, pos, pos_part, ltb_ℤ, leb_ℤ, ◌*◌, ltb, leb, Bool, true, false, ◌&&◌, ◌||◌, List, [],
  ◌∷◌, ◌++◌, Option, none, some, Bytes, length, take, if◌then◌else◌,
}

abbrev minute : ℕ
minute = 60000000000

-- The timeout that is in force.
unfoldable pub idle_timeout : ℤ → Bool → ℕ
idle_timeout timeout is_streaming =
    if is_streaming && ltb_ℤ timeout (pos (5 * minute))
    then 5 * minute
    else if leb_ℤ timeout (pos 0)
    then 2 * minute
    else pos_part timeout

-- When both connections are closed at the latest.
unfoldable pub close_time : Bool → ℤ → Option ℕ
close_time is_streaming max_duration =
    if is_streaming && ltb_ℤ (pos 0) max_duration then some (pos_part max_duration) else none

-- What a Read gives, so long after it was called: a piece, with how long the Write of it takes and how
-- many bytes that writes; the end of the stream; or an error.
pub data Arrival : Type 0 where
  piece : ℕ → Bytes → ℕ → ℕ → Arrival
  finish broken : ℕ → Arrival

pub data Stop : Type 0 where
  finished read_failed write_failed timed_out closed : Stop

pub record Copied : Type 0 where
  pub sent : Bytes
  pub reason : Stop
  pub at : ℕ

abbrev pub stopped : Stop → ℕ → Copied
stopped reason at = record { sent = []; reason = reason; at = at }

abbrev pub max_ℕ : ℕ → ℕ → ℕ
max_ℕ a b = if leb a b then b else a

-- Both connections are closed at this time or before.
abbrev pub is_closed : Option ℕ → ℕ → Bool
is_closed none t = false
is_closed (some c) t = leb c t

-- A Read that starts at `now` and would not return before its deadline.
abbrev pub overrun : ℕ → Option ℕ → ℕ → Copied
overrun idle none now = stopped timed_out (now + idle)
overrun idle (some c) now =
    if leb c (now + idle) then stopped closed (max_ℕ now c) else stopped timed_out (now + idle)

-- After a Write that ends at `now`; `rest` is the copying from there on.
abbrev pub after_write : Option ℕ → ℕ → Bytes → ℕ → Copied → Copied
after_write none now p written rest =
    if ltb written (length p) then stopped write_failed now else rest
after_write (some c) now p written rest =
    if leb c now
    then stopped closed c
    else if ltb written (length p)
    then stopped write_failed now
    else rest

abbrev pub with_sent : Bytes → Copied → Copied
with_sent s r = record r { sent = s ++ r.sent }

-- io.Copy of one direction, from `now` on: Read of idleConn, then Write.
unfoldable pub copy_from : ℕ → Option ℕ → List Arrival → ℕ → Copied
copy_from idle close [] now = overrun idle close now
copy_from idle close (finish gap ∷ es) now =
    if leb idle gap || is_closed close (now + gap)
    then overrun idle close now
    else stopped finished (now + gap)
copy_from idle close (broken gap ∷ es) now =
    if leb idle gap || is_closed close (now + gap)
    then overrun idle close now
    else stopped read_failed (now + gap)
copy_from idle close (piece gap p took written ∷ es) now =
    let rest = copy_from idle close es (now + gap + took) in
    if leb idle gap || is_closed close (now + gap)
    then overrun idle close now
    else with_sent (take written p) (after_write close (now + gap + took) p written rest)

-- CopyBidirectional: the direction from `b` to `a`, whose length is upBytes, and the one from `a` to `b`,
-- whose length is downBytes. Neither touches the read deadline of the other.
unfoldable pub copy_bidirectional : ℤ → Bool → ℤ → List Arrival → List Arrival → Copied × Copied
unfolding copy_from idle_timeout close_time
copy_bidirectional timeout is_streaming max_duration from_a from_b =
    let idle = idle_timeout timeout is_streaming in
    let close = close_time is_streaming max_duration in
    (copy_from idle close from_b 0, copy_from idle close from_a 0)
