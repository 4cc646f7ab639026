-- ===== src/Config/Load.antt =====
-- internal/config/config.go, Load and Validate. The file system, the YAML parser and the resolver of
-- listening addresses are given.
use go_multi_warp.Prelude.{
  pos, leb_ℤ, ◌==ℤ◌, Bool, true, false, not, ◌&&◌, ◌||◌, [], Option, none, some, Bytes, codes,
  is_empty, if◌then◌else◌,
}
use go_multi_warp.Config.{Config, RunMode, managed, default_config}
use go_multi_warp.Config.Env.{apply_env}

pub data Error : Type 0 where
  no_instances zero_base_port managed_on_windows org_without_auth org_with_keys : Error
  bad_listen : Bytes → Error
  unreadable : Error

-- The pair (value, error) of Go, of which the code returns only one part.
pub data Loaded (A : Type 0) : Type 0 where
  failed : Error → Loaded A
  returned : A → Loaded A

infixl 5 ◌>>=◌ ◌>>◌
abbrev pub ◌>>=◌ : {A B : Type 0} → Loaded A → (A → Loaded B) → Loaded B
failed e >>= next = failed e
returned a >>= next = next a

abbrev pub ◌>>◌ : {B : Type 0} → Loaded (Unit {0}) → Loaded B → Loaded B
first >> next = first >>= (λ done. next)

abbrev pub refuse : Bool → Error → Loaded (Unit {0})
refuse true e = failed e
refuse false e = returned tt

is_managed : RunMode → Bool
is_managed managed = true
is_managed _ = false

-- What the loader takes from the system.
pub record System : Type 0 where
  pub getenv : Bytes → Bytes  -- os.Getenv
  pub exists : Bytes → Bool  -- os.Stat succeeds
  pub read_yaml : Bytes → Config → Option Config  -- os.ReadFile and yaml.Unmarshal over a copy
  pub resolves : Bytes → Bool  -- net.ResolveTCPAddr succeeds
  pub windows : Bool  -- runtime.GOOS == "windows"
  pub data_root : Bytes
  pub runtime_root : Bytes

unfoldable pub validate : System → Config → Loaded (Unit {0})
unfolding is_managed
validate sys c = do
  refuse (leb_ℤ c.instances (pos 0) && is_empty c.backends) no_instances
  refuse (c.base_port ==ℤ pos 0) zero_base_port
  refuse (is_managed c.mode && sys.windows) managed_on_windows
  refuse (has_org && (is_empty c.control.auth_client_id || is_empty c.control.auth_client_secret))
      org_without_auth
  refuse (has_org && not (is_empty c.control.license_keys)) org_with_keys
  refuse (not (sys.resolves c.listen.socks5)) (bad_listen (codes "listen.socks5"))
  refuse (not (sys.resolves c.listen.http)) (bad_listen (codes "listen.http"))
  refuse (not (sys.resolves c.listen.admin)) (bad_listen (codes "listen.admin"))
  where
    has_org : Bool
    has_org = not (is_empty c.control.org)

abbrev or_unreadable : Option Config → Loaded Config
or_unreadable none = failed unreadable
or_unreadable (some c) = returned c

unfoldable pub load_file : System → Bytes → Config → Loaded Config
load_file sys path c = or_unreadable (sys.read_yaml path c)

-- The path given, that of the environment, or the first of the usual places; empty if there is none.
unfoldable pub config_path : System → Bytes → Bytes
config_path sys path =
    let p = if is_empty path then sys.getenv (codes "MULTI_WARP_CONFIG") else path in
    if not (is_empty p)
    then p
    else if sys.exists (codes "config.yaml")
    then codes "config.yaml"
    else if sys.exists (codes "/etc/multi-warp/config.yaml")
    then codes "/etc/multi-warp/config.yaml"
    else []

-- The end of Load: a configuration that Validate passes.
unfoldable pub checked : System → Config → Loaded Config
checked sys c = do validate sys c; returned c

unfoldable pub load : System → Bytes → Loaded Config
load sys path = do
  let start = default_config sys.data_root sys.runtime_root
  let p = config_path sys path
  read ← if is_empty p then returned start else load_file sys p start
  checked sys (apply_env sys.getenv read)
