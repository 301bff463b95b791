-- ===== src/Domain.antt =====
-- src/domain.h, src/domain.cc and src/options.cc: the domain that a daemon manages, with the
-- directories that belong to it. The environment and the paths that the build configures are
-- parameters.
use Prim.Native.String.{◌++◌ as append}
use relaunchd.Prelude.{
  ℕ, String, Bool, false, Option, none, some, List, [], ◌∷◌, ◌==◌, nat_eq, nat_beq, string_eq,
  if◌then◌else◌,
}
use relaunchd.Prelude.Exec.{Result, ok, err, runtime_error}
use relaunchd.Prelude.Text.{codes}
use relaunchd.Prelude.Throw.{◌>>=◌}

pub record Environment : Type 0 where
  pub getuid : ℕ
  pub getenv : String → Option String

-- what src/config.h.in leaves to the build
pub record BuildConfig : Type 0 where
  pub pkgstatedir : String
  pub system_agent_load_path : String
  pub system_daemon_load_path : String
  pub user_agent_load_path : String
  pub vendor_agent_load_path : String
  pub vendor_daemon_load_path : String

pub data DomainType : Type 0 where
  system user gui : DomainType

pub record Domain : Type 0 where
  pub dtype : DomainType
  pub statedir : String

-- Domain::to_string
unfoldable pub to_string : DomainType → String
to_string DomainType.system = "system"
to_string DomainType.user = "user"
to_string DomainType.gui = "gui"

unfoldable ends_with_slash : List ℕ → Bool
ends_with_slash [] = false
ends_with_slash (c ∷ []) = nat_beq c b'/'
ends_with_slash (c ∷ d ∷ cs) = ends_with_slash (d ∷ cs)

-- `a / b` of paths, where `b` is relative
unfoldable pub join_path : String → String → String
unfolding ends_with_slash
join_path a b =
    if a == "" then b else if ends_with_slash (codes a) then append a b else append a (append "/" b)

module _ (config : BuildConfig) where
  -- Domain::getLoadPaths
  unfoldable pub get_load_paths : DomainType → List String
  get_load_paths DomainType.system =
      config.system_daemon_load_path ∷ config.vendor_daemon_load_path ∷ []
  get_load_paths DomainType.user =
      config.system_agent_load_path ∷ config.vendor_agent_load_path ∷ []
  get_load_paths DomainType.gui = config.user_agent_load_path ∷ []

-- Domain::detectDomainType
unfoldable pub detect_domain_type : Environment → DomainType
detect_domain_type env =
    if env.getuid == 0
    then DomainType.system
    else elim (env.getenv "DISPLAY") [ none ↦ DomainType.user | some d ↦ DomainType.gui ]

-- `state_home` of detectStateDir
abbrev state_home : Environment → String
state_home env = elim (env.getenv "XDG_STATE_HOME") [
  | some xdg ↦ xdg
  | none ↦ elim (env.getenv "HOME") [
    | some home ↦ join_path (join_path home ".local") "state"
    | none ↦ ""
  ]
]

-- Domain::detectStateDir for a user
unfoldable pub user_state_dir : Environment → Result String
unfolding join_path
user_state_dir env =
    if state_home env == "" then err runtime_error else ok (join_path (state_home env) "relaunchd")

-- Domain::detectStateDir
unfoldable pub detect_state_dir : BuildConfig → Environment → DomainType → Result String
unfolding user_state_dir
detect_state_dir config env DomainType.system = ok config.pkgstatedir
detect_state_dir config env _ = user_state_dir env

-- what the constructor makes of its two arguments
abbrev type_or : Environment → Option DomainType → DomainType
type_or env none = detect_domain_type env
type_or env (some t) = t

-- Domain::Domain
unfoldable pub new_domain :
    BuildConfig → Environment → Option DomainType → Option String → Result Domain
unfolding detect_domain_type detect_state_dir
new_domain config env t (some statedir) = ok (record { dtype = type_or env t; statedir = statedir })
new_domain config env t none = detect_state_dir config env (type_or env t) >>= λ statedir.
    ok (record { dtype = type_or env t; statedir = statedir })

-- `configdir` of getConfigDir, for a user
abbrev config_home : Environment → Result String
config_home env = elim (env.getenv "XDG_CONFIG_HOME") [
  | some xdg ↦ ok xdg
  | none ↦ elim (env.getenv "HOME") [
    | some home ↦ ok (append home "/.local/config")
    | none ↦ err runtime_error
  ]
]

-- getConfigDir
unfoldable pub get_config_dir : Environment → Result String
get_config_dir env =
    if env.getuid == 0
    then ok "/etc/relaunchd"
    else (config_home env >>= λ home. ok (append home "/relaunchd"))

-- the socket of the remote procedure calls
abbrev pub rpc_sock : Domain → String
rpc_sock domain = join_path domain.statedir "rpc.sock"
