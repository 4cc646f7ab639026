-- ===== src/Examples/Configs.antt =====
-- Configurations of internal/config/config.go.
use go_multi_warp.Prelude.{pos, ◌≡◌, refl, true, false, List, [], ◌∷◌, none, Bytes, codes, bytes_eq}
use go_multi_warp.Std.{trim_space, to_lower, split}
use go_multi_warp.Config.{Config, default_config, split_csv, parse_bool}
use go_multi_warp.Config.Env.{apply_env}
use go_multi_warp.Config.Load.{System, returned, validate, checked, load, config_path}
use go_multi_warp.Config.Accepted.{IsAccepted, load-IsAccepted}

abbrev two_keys : List Bytes
two_keys = codes "ab" ∷ codes "c" ∷ []

abbrev keyed : Config
keyed =
    let c = default_config [] [] in
    record c {
      control = record c.control { license_keys = two_keys };
      instances = pos 3;
      base_port = pos 40000;
      backends = [];
    }

split_csv_blank : split_csv (codes " ab,, c ") ≡ two_keys
unfolding split_csv split trim_space
split_csv_blank = refl

parse_bool_yes : parse_bool (codes " Yes ") false ≡ true
unfolding parse_bool trim_space to_lower bytes_eq
parse_bool_yes = refl

-- A host with no configuration file and one variable set.
abbrev pub host : System
host = record {
  getenv = λ name. [];
  exists = λ path. false;
  read_yaml = λ path c. none;
  resolves = λ addr. true;
  windows = false;
  data_root = codes "/var/lib/cloudflare-warp";
  runtime_root = codes "/tmp/go-multi-warp";
}

load_default : load host [] ≡ returned (default_config host.data_root host.runtime_root)
unfolding load config_path checked validate apply_env default_config
load_default = refl

load-IsAccepted_example : IsAccepted host (default_config host.data_root host.runtime_root)
load-IsAccepted_example =
    load-IsAccepted host [] (default_config host.data_root host.runtime_root) load_default
