-- ===== src/Proxy/Wire.antt =====
-- A connection as the code of internal/proxy uses it: io.ReadFull over a reader, Write, and Close. The
-- bytes that the other side sends are given from the start; after them comes the end of the stream. A
-- connection that breaks refuses every write from some point on.
pub mod Reads
use go_multi_warp.Prelude.{ℕ, zero, suc, ◌-◌, Bool, true, false, List, [], ◌∷◌, ◌++◌, Bytes}

pub record Wire : Type 0 where
  pub recv : Bytes
  pub sent : Bytes
  pub writes_left : ℕ
  pub closed : Bool

pub data Ended (E A : Type 0) : Type 0 where
  failed : E → Ended E A
  returned : A → Ended E A

-- What runs over a connection and may end early.
abbrev pub Session : Type 0 → Type 0 → Type 0
Session E A = Wire → Ended E A × Wire

abbrev pub then_on : {E A B : Type 0} → (A → Session E B) → Ended E A × Wire → Ended E B × Wire
then_on next (failed e, w) = (failed e, w)
then_on next (returned a, w) = next a w

infixl 5 ◌>>=◌ ◌>>◌
abbrev pub ◌>>=◌ : {E A B : Type 0} → Session E A → (A → Session E B) → Session E B
◌>>=◌ run next w = then_on next (run w)

abbrev pub ◌>>◌ : {E B : Type 0} → Session E (Unit {0}) → Session E B → Session E B
◌>>◌ run next w = then_on (λ done. next) (run w)

abbrev pub return : {E A : Type 0} → A → Session E A
return a w = (returned a, w)

abbrev pub fail : {E A : Type 0} → E → Session E A
fail e w = (failed e, w)

-- if !ok { return e }
abbrev pub require : {E : Type 0} → Bool → E → Session E (Unit {0})
require true e w = (returned tt, w)
require false e w = (failed e, w)

abbrev take_byte : {E : Type 0} → E → Bytes → Session E ℕ
take_byte e [] w = (failed e, w)
take_byte e (c ∷ cs) w = (returned c, record w { recv = cs })

unfoldable pub read_byte : {E : Type 0} → E → Session E ℕ
read_byte e w = take_byte e w.recv w

-- io.ReadFull into a buffer of `n` bytes: what there is gets consumed also when it is too little.
unfoldable pub read_full : {E : Type 0} → ℕ → E → Session E Bytes
unfolding read_byte
read_full zero e = return []
read_full (suc n) e = do c ← read_byte e; cs ← read_full n e; return (c ∷ cs)

abbrev put_bytes : {E : Type 0} → Bytes → E → ℕ → Session E (Unit {0})
put_bytes bs e zero w = (failed e, w)
put_bytes bs e (suc n) w = (returned tt, record w { sent = w.sent ++ bs; writes_left = n })

unfoldable pub write : {E : Type 0} → Bytes → E → Session E (Unit {0})
write bs e w = put_bytes bs e w.writes_left w

-- conn.Write with its error ignored
abbrev sent_anyway : Bytes → ℕ → Wire → Wire
sent_anyway bs zero w = w
sent_anyway bs (suc n) w = record w { sent = w.sent ++ bs; writes_left = n }

unfoldable pub send : Bytes → Wire → Wire
send bs w = sent_anyway bs w.writes_left w

unfoldable pub close : Wire → Wire
close w = record w { closed = true }

abbrev close_if_failed : {E A : Type 0} → Ended E A × Wire → Ended E A × Wire
close_if_failed (failed e, w) = (failed e, record w { closed = true })
close_if_failed (returned a, w) = (returned a, w)

-- Every early return closes the connection.
unfoldable pub closing : {E A : Type 0} → Session E A → Session E A
closing run w = close_if_failed (run w)
