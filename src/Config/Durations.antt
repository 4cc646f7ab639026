-- ===== src/Config/Durations.antt =====
-- internal/config/config.go: the decoding of durations and the directories of an instance. A YAML value
-- is what its two decodings give; time.ParseDuration and filepath.Join are parameters.
use go_multi_warp.Prelude.{
  ℕ, suc, ◌*◌, ◌<◌, ℤ, pos, negsuc, sub_ℕ, to_int64, to_int64_id, ◌≡◌, ap, List, [], ◌∷◌, ◌++◌,
  Option, none, some, Bytes, codes, arith,
}
use go_multi_warp.Std.{itoa}
use go_multi_warp.Config.{Config, millisecond, second}

record Node : Type 0 where
  pub as_int : Option ℤ  -- value.Decode into an int64
  pub as_text : Option Bytes  -- and into a string

-- A Duration in its int64, which wraps.
abbrev times : ℕ → ℤ → ℤ
times unit (pos n) = to_int64 (pos (n * unit))
times unit (negsuc n) = to_int64 (sub_ℕ 0 (suc n * unit))

abbrev parsed : (Bytes → Option ℤ) → Option Bytes → Option ℤ
parsed parse none = none
parsed parse (some s) = parse s

abbrev decoded : ℕ → (Bytes → Option ℤ) → Option Bytes → Option ℤ → Option ℤ
decoded unit parse text none = parsed parse text
decoded unit parse text (some n) = some (times unit n)

-- UnmarshalYAML of Duration, whose bare numbers are milliseconds.
unfoldable decode_duration : (Bytes → Option ℤ) → Node → Option ℤ
decode_duration parse n = decoded millisecond parse n.as_text n.as_int

-- UnmarshalYAML of DurationSec, whose bare numbers are seconds.
unfoldable decode_duration_sec : (Bytes → Option ℤ) → Node → Option ℤ
decode_duration_sec parse n = decoded second parse n.as_text n.as_int

unfoldable data_dir : (List Bytes → Bytes) → Config → ℤ → Bytes
data_dir join c id = join (c.control.data_root ∷ (codes "instance-" ++ itoa id) ∷ [])

unfoldable runtime_dir : (List Bytes → Bytes) → Config → ℤ → Bytes
runtime_dir join c id = join (c.control.runtime_root ∷ (codes "warp-" ++ itoa id) ∷ [])

unfoldable dbus_dir : (List Bytes → Bytes) → Config → ℤ → Bytes
dbus_dir join c id = join (c.control.runtime_root ∷ (codes "dbus-" ++ itoa id) ∷ [])

-- A number of milliseconds short of 2 ^ 63 nanoseconds is that duration, whatever its text; from there on
-- the product wraps.
decode_duration_pos :
    (parse : Bytes → Option ℤ) (n : ℕ) (text : Option Bytes)
    → n * 1000000 < 0x8000000000000000
    → decode_duration parse (record { as_int = some (pos n); as_text = text })
      ≡ some (pos (n * 1000000))
unfolding decode_duration
decode_duration_pos parse n text h =
    ap some (to_int64_id (pos (n * 1000000)) (omega arith, omega arith))
