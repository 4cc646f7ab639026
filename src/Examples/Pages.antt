-- ===== src/Examples/Pages.antt =====
-- The admin interface of internal/admin on a small pool.
use go_multi_warp.Prelude.{◌≡◌, ◌↔◌, none, codes}
use go_multi_warp.Admin.{healthz, readyz}
use go_multi_warp.Admin.Ready.{healthz-readyz}
use go_multi_warp.Examples.Sessions.{state}

healthz-readyz_example :
    ((healthz 0 none 30 state).1.status ≡ codes "ok") ↔ ((readyz 30 state).1.0 ≡ 200)
healthz-readyz_example = healthz-readyz 0 none 30 state
