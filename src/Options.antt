-- ===== src/Options.antt =====
-- group/dlm_controld/config.c and read_arguments of group/dlm_controld/main.c: where the settings of
-- the daemon come from.
pub mod Values
pub mod Choice
mod Examples
use dlm.Base.{
  ℕ, ◌+◌, Bool, true, false, not, ◌&&◌, Option, none, some, List, [], ◌∷◌, ◌==◌, leb, if◌then◌else◌,
}
use dlm.Configfs.Weight.{ℤ, pos, negsuc}

-- The settings; the first three are those of the kernel (`cfgk_…`), the others `cfgd_…`.
pub data Setting : Type 0 where
  debug timewarn protocol : Setting
  debug_logfile enable_fencing enable_quorum enable_deadlk enable_plock plock_debug : Setting
  plock_rate_limit plock_ownership : Setting
  drop_resources_time drop_resources_count drop_resources_age : Setting

abbrev pub code : Setting → ℕ
code debug = 0
code timewarn = 1
code protocol = 2
code debug_logfile = 3
code enable_fencing = 4
code enable_quorum = 5
code enable_deadlk = 6
code enable_plock = 7
code plock_debug = 8
code plock_rate_limit = 9
code plock_ownership = 10
code drop_resources_time = 11
code drop_resources_count = 12
code drop_resources_age = 13

-- The globals: the values, and whether each was set on the command line (`optk_…`, `optd_…`);
-- `connected` is a `ccs_handle` other than 0, `daemon_debug` is `daemon_debug_opt`.
pub record Options : Type 0 where
  pub opt : Setting → Bool
  pub cfg : Setting → ℤ
  pub connected : Bool
  pub daemon_debug : Bool

-- The initial values (group/dlm_controld/config.h).
abbrev pub default_value : Setting → ℤ
default_value debug = negsuc 0
default_value timewarn = negsuc 0
default_value protocol = negsuc 0
default_value debug_logfile = pos 0
default_value enable_fencing = pos 1
default_value enable_quorum = pos 1
default_value enable_deadlk = pos 0
default_value enable_plock = pos 1
default_value plock_debug = pos 0
default_value plock_rate_limit = pos 0
default_value plock_ownership = pos 1
default_value drop_resources_time = pos 10000
default_value drop_resources_count = pos 10
default_value drop_resources_age = pos 10000

abbrev pub defaults : Options
defaults = record { opt = λ s. false; cfg = default_value; connected = false; daemon_debug = false }

-- A write to a value, and one from the command line.
unfoldable pub set_cfg : Setting → ℤ → Options → Options
set_cfg x v o = record o { cfg = λ s. if code x == code s then v else o.cfg s }

unfoldable pub set_opt : Setting → ℤ → Options → Options
unfolding set_cfg
set_opt x v o = record (set_cfg x v o) { opt = λ s. if code x == code s then true else o.opt s }

-- What `getopt` returns in one call, with `atoi` of its argument.
pub data Argument : Type 0 where
  debug_mode debug_log kernel_debug plock_debugging : Argument
  valued : Setting → ℤ → Argument
  usage version unknown_option : Argument

-- One round of the loop of `read_arguments`: -D, -L, -K, -P, the options with a value, and those
-- that end the program (`none`).
unfoldable pub read_argument : Argument → Options → Option Options
unfolding set_opt
read_argument debug_mode o = some (record o { daemon_debug = true })
read_argument debug_log o = some (set_opt debug_logfile (pos 1) o)
read_argument kernel_debug o = some (set_opt debug (pos 1) o)
read_argument plock_debugging o = some (set_opt plock_debug (pos 1) o)
read_argument (valued s v) o = some (set_opt s v o)
read_argument usage o = none
read_argument version o = none
read_argument unknown_option o = none

unfoldable pub read_args : List Argument → Options → Option Options
unfolding read_argument
read_args [] o = some o
read_args (a ∷ rest) o = elim (read_argument a o) [ none ↦ none | some o' ↦ read_args rest o' ]

-- `read_arguments`; the first argument is whether DLM_CONTROLD_DEBUG is set.
unfoldable pub read_arguments : Bool → List Argument → Options → Option Options
unfolding read_args set_opt
read_arguments in_environment args o =
    elim (read_args args
      (record o { opt = λ s. if code timewarn == code s then false else o.opt s })) [
        | none ↦ none
        | some o' ↦ some (if in_environment then set_opt debug_logfile (pos 1) o' else o')
      ]

-- What cluster.conf holds for a setting, below dlm and below gfs_controld, by `atoi`; the text of
-- the protocol; and whether `ccs_connect` succeeds.
pub record Conf : Type 0 where
  pub connects : Bool
  pub dlm : Setting → Option ℤ
  pub gfs_controld : Setting → Option ℤ
  pub protocol_text : Option (List ℕ)

-- `read_ccs_int`; `none` is -1.
unfoldable pub read_ccs_int : Option ℤ → Option ℕ
read_ccs_int none = none
read_ccs_int (some (pos v)) = some v
read_ccs_int (some (negsuc v)) = none

-- `strncasecmp` with the length of the second text, which is in small letters.
abbrev pub small : ℕ → ℕ
small c = if leb b'A' c && leb c b'Z' then c + 32 else c

unfoldable pub starts_like : List ℕ → List ℕ → Bool
starts_like str [] = true
starts_like [] (p ∷ ps) = false
starts_like (c ∷ cs) (p ∷ ps) = small c == p && starts_like cs ps

-- `read_ccs_protocol`, with `PROTO_TCP` and `PROTO_SCTP`.
unfoldable pub read_ccs_protocol : Option (List ℕ) → Option ℕ
unfolding starts_like
read_ccs_protocol none = none
read_ccs_protocol (some str) =
    if starts_like str (b't' ∷ b'c' ∷ b'p' ∷ [])
    then some 1
    else if starts_like str (b's' ∷ b'c' ∷ b't' ∷ b'p' ∷ [])
    then some 2
    else none

abbrev pub or_else : Option ℕ → Option ℕ → Option ℕ
or_else none other = other
or_else (some v) other = some v

-- What the branch of `setup_ccs` for a setting reads.
unfoldable pub read_conf : Conf → Setting → Option ℕ
unfolding read_ccs_int read_ccs_protocol
read_conf conf protocol = read_ccs_protocol conf.protocol_text
read_conf conf debug_logfile = none
read_conf conf plock_ownership =
    or_else (read_ccs_int (conf.dlm plock_ownership))
      (read_ccs_int (conf.gfs_controld plock_ownership))
read_conf conf plock_rate_limit =
    or_else (read_ccs_int (conf.dlm plock_rate_limit))
      (read_ccs_int (conf.gfs_controld plock_rate_limit))
read_conf conf drop_resources_time =
    or_else (read_ccs_int (conf.dlm drop_resources_time))
      (read_ccs_int (conf.gfs_controld drop_resources_time))
read_conf conf drop_resources_count =
    or_else (read_ccs_int (conf.dlm drop_resources_count))
      (read_ccs_int (conf.gfs_controld drop_resources_count))
read_conf conf drop_resources_age =
    or_else (read_ccs_int (conf.dlm drop_resources_age))
      (read_ccs_int (conf.gfs_controld drop_resources_age))
read_conf conf s = read_ccs_int (conf.dlm s)

-- One branch of `setup_ccs`, and some of them, one after the other.
unfoldable pub read_setting : Conf → Setting → Options → Options
unfolding read_conf set_cfg
read_setting conf s o =
    if o.opt s then o else elim (read_conf conf s) [ none ↦ o | some v ↦ set_cfg s (pos v) o ]

unfoldable pub read_settings : Conf → List Setting → Options → Options
unfolding read_setting
read_settings conf [] o = o
read_settings conf (s ∷ rest) o = read_settings conf rest (read_setting conf s o)

abbrev pub at_start : List Setting
at_start =
    debug ∷ timewarn ∷ protocol ∷ enable_fencing ∷ enable_quorum ∷ enable_deadlk ∷ enable_plock
    ∷ plock_ownership ∷ []

abbrev pub while_running : List Setting
while_running =
    plock_debug ∷ plock_rate_limit ∷ drop_resources_time ∷ drop_resources_count ∷ drop_resources_age
    ∷ []

-- `setup_ccs`; `false` is -1.
unfoldable pub setup_ccs : Conf → Options → Bool × Options
unfolding read_settings
setup_ccs conf o =
    if o.connected
    then (true, read_settings conf while_running o)
    else if not conf.connects
    then (false, o)
    else (
      true,
      read_settings conf while_running
          (read_settings conf at_start (record o { connected = true })),
    )
