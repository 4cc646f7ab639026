-- ===== src/Examples/Probes.antt =====
-- Probes of internal/health.
use go_multi_warp.Prelude.{pos, ◌≡◌, refl, true, some, codes, arith, get_elem?, bytes_eq}
use go_multi_warp.Std.{cut_prefix, split, trim_space}
use go_multi_warp.Std.Split.{join, has_byte}
use go_multi_warp.Pool.Backend.{Backend, ProbeInfo, has_elapsed, is_selectable}
use go_multi_warp.Pool.Registry.{get, index_of}
use go_multi_warp.Health.{bad, answer, handle, probe_one, read_trace, read_lines, read_line}
use go_multi_warp.Health.Trace.{trace_lines, read_trace-join}
use go_multi_warp.Health.Failing.{handle-bad}
use go_multi_warp.Examples.Backends.{sample}
use go_multi_warp.Examples.Pools.{small_pool}

abbrev seen : ProbeInfo
seen = record {
  warp = codes "plus";
  ip = codes "104.28.1.1";
  loc = codes "SE";
  latency_ms = pos 40;
}

probe_off :
    probe_one (λ s. s) true (answer (pos 3) (codes "ip=1.1.1.1"))
    ≡ bad (codes "warp not active (got )")
unfolding probe_one read_trace read_lines read_line cut_prefix split trim_space bytes_eq
probe_off = refl

read_trace-join_example : read_trace (pos 40) (join 10 (trace_lines seen)) ≡ seen
read_trace-join_example =
    read_trace-join seen (unfold trim_space has_byte in record { one_line = refl; trimmed = refl })
      (unfold trim_space has_byte in record { one_line = refl; trimmed = refl })
      (unfold trim_space has_byte in record { one_line = refl; trimmed = refl })

handle-bad_example :
    (c : Backend) × (get_elem? (handle 50 0 (pos 0) (bad (codes "eof")) small_pool).backends 0
      ≡ some c)
    × ((is_selectable 60 c).1 ≡ has_elapsed 60 50 (pos 15))
handle-bad_example =
    handle-bad 50 60 0 (codes "eof") small_pool sample (unfold get index_of in refl) refl refl
      (omega arith)
