-- ===== src/Health/Trace.antt =====
-- The trace body that health.go reads.
use go_multi_warp.Prelude.{◌≡◌, refl, false, List, [], ◌∷◌, ◌++◌, Bytes, codes}
use go_multi_warp.Std.{cut_prefix, trim_space}
use go_multi_warp.Std.Split.{has_byte, join, split-join}
use go_multi_warp.Pool.Backend.{ProbeInfo}
use go_multi_warp.Health.{read_line, read_lines, read_trace}

-- A value that stands on one line with no white space around it.
pub record IsValue (v : Bytes) : Type 0 where
  pub one_line : has_byte 10 v ≡ false
  pub trimmed : trim_space v ≡ v

abbrev pub trace_lines : ProbeInfo → List Bytes
trace_lines info =
    (codes "ip=" ++ info.ip)
    ∷ (codes "ts=1700000000")
    ∷ (codes "loc=" ++ info.loc)
    ∷ (codes "warp=" ++ info.warp)
    ∷ []

-- A trace with the lines of an address, a time stamp, a place and a state, in this order, is read back
-- as it was written.
pub read_trace-join :
    (info : ProbeInfo)
    → IsValue info.ip
    → IsValue info.loc
    → IsValue info.warp
    → read_trace info.latency_ms (join 10 (trace_lines info)) ≡ info
unfolding read_trace read_lines read_line cut_prefix has_byte
read_trace-join info a b c =
    rw
      (split-join 10 (codes "ip=" ++ info.ip)
        ((codes "ts=1700000000") ∷ (codes "loc=" ++ info.loc) ∷ (codes "warp=" ++ info.warp) ∷ [])
        (a.one_line, (refl, (b.one_line, (c.one_line, tt)))))
      (rw (a.trimmed, b.trimmed, c.trimmed) refl)
