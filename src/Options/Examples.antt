-- ===== src/Options/Examples.antt =====
-- Settings at concrete inputs.
use dlm.Base.{◌≡◌, refl, true, false, Option, none, some, List, [], ◌∷◌}
use dlm.Configfs.Weight.{ℤ, pos, negsuc}
use dlm.Options.{
  Setting, enable_fencing, enable_deadlk, plock_rate_limit, plock_ownership, drop_resources_age,
  Options, defaults, Argument, debug_log, valued, usage, read_arguments, Conf, read_ccs_protocol,
  read_conf, setup_ccs,
}
use dlm.Options.Choice.{given, setup_ccs-read_arguments}

-- Below dlm: no fencing, an invalid plock_ownership, deadlock detection, the text of the protocol;
-- below gfs_controld: a rate limit and no plock_ownership.
abbrev below_dlm : Setting → Option ℤ
below_dlm enable_fencing = some (pos 0)
below_dlm plock_ownership = some (negsuc 0)
below_dlm enable_deadlk = some (pos 1)
below_dlm _ = none

abbrev below_gfs : Setting → Option ℤ
below_gfs plock_rate_limit = some (pos 100)
below_gfs plock_ownership = some (pos 0)
below_gfs _ = none

abbrev conf : Conf
conf = record {
  connects = true;
  dlm = below_dlm;
  gfs_controld = below_gfs;
  protocol_text = some (b'S' ∷ b'C' ∷ b'T' ∷ b'P' ∷ []);
}

-- -f 1 -L -f 2
abbrev args : List Argument
args = valued enable_fencing (pos 1) ∷ debug_log ∷ valued enable_fencing (pos 2) ∷ []

started : Option Options
unfolding read_arguments
started = read_arguments false args defaults

settings : Setting → Option ℤ
unfolding started setup_ccs
settings s = elim started [ none ↦ none | some o ↦ some ((setup_ccs conf o).1.cfg s) ]

command_line_first : settings enable_fencing ≡ some (pos 2)
unfolding settings
command_line_first = refl

file_next : settings enable_deadlk ≡ some (pos 1)
unfolding settings
file_next = refl

older_file_last : settings plock_ownership ≡ some (pos 0)
unfolding settings
older_file_last = refl

no_value : settings drop_resources_age ≡ some (pos 10000)
unfolding settings
no_value = refl

sctp : read_ccs_protocol conf.protocol_text ≡ some 2
unfolding read_ccs_protocol
sctp = refl

ends : read_arguments true (usage ∷ args) defaults ≡ none
unfolding read_arguments
ends = refl

started_options : (o : Options) × (read_arguments false args defaults ≡ some o)
unfolding read_arguments
started_options = (_, refl)

setup_ccs-read_arguments_example :
    (setup_ccs conf started_options.0).1.cfg plock_rate_limit ≡ pos 100
unfolding started_options given read_conf
setup_ccs-read_arguments_example =
    setup_ccs-read_arguments conf false args plock_rate_limit started_options.0 started_options.1
      refl
