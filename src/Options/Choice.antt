-- ===== src/Options/Choice.antt =====
-- group/dlm_controld/config.c: the command line goes before cluster.conf, and that before a default.
use dlm.Base.{
  some-inj, ◌≡◌, refl, sym, ap, ◌∙◌, Bool, true, false, not, ◌&&◌, ◌||◌, Option, none, some, List,
  [], ◌∷◌, ◌==◌, if◌then◌else◌, arith, Bool-cases, inl, inr,
}
use dlm.Configfs.Weight.{ℤ, pos}
use dlm.Options.{
  Setting, debug, timewarn, debug_logfile, plock_debug, code, Options, default_value, defaults,
  set_cfg, set_opt, Argument, debug_mode, debug_log, kernel_debug, plock_debugging, valued, usage,
  version, unknown_option, read_argument, read_args, read_arguments, Conf, read_conf, read_settings,
  at_start, while_running, setup_ccs,
}
use dlm.Options.Values.{
  value_or, chosen, is_in, value_or_twice, read_settings-cfg, read_settings-opt,
}

-- The value of the last argument for a setting.
given_by : Argument → Setting → Option ℤ
given_by debug_log s = if code debug_logfile == code s then some (pos 1) else none
given_by kernel_debug s = if code debug == code s then some (pos 1) else none
given_by plock_debugging s = if code plock_debug == code s then some (pos 1) else none
given_by (valued x v) s = if code x == code s then some v else none
given_by _ s = none

abbrev value_of : Option ℤ → ℤ → ℤ
value_of none old = old
value_of (some v) old = v

abbrev is_given : Option ℤ → Bool
is_given none = false
is_given (some v) = true

abbrev later : Option ℤ → Option ℤ → Option ℤ
later none first = first
later (some v) first = some v

-- What the command line and DLM_CONTROLD_DEBUG give for a setting: the last that names it.
unfoldable pub given : Bool → List Argument → Setting → Option ℤ
unfolding given_by
given in_environment [] s = if in_environment then given_by debug_log s else none
given in_environment (a ∷ rest) s = later (given in_environment rest s) (given_by a s)

-- An option after what was given for it.
record Gives (v : Option ℤ) (s : Setting) (o o' : Options) : Type 0 where
  pub opt : o'.opt s ≡ (is_given v || o.opt s)
  pub cfg : o'.cfg s ≡ value_of v (o.cfg s)
  pub connected : o'.connected ≡ o.connected

set_opt-Gives :
    (x s : Setting) (v : ℤ) (o : Options)
    → Gives (if code x == code s then some v else none) s o (set_opt x v o)
unfolding set_opt set_cfg
set_opt-Gives x s v o = elim (Bool-cases (code x == code s)) [
  | inl y ↦ rw y (record { opt = ground (arith, y); cfg = ground (arith, y); connected = refl })
  | inr n ↦ rw n (record { opt = ground (arith, n); cfg = ground (arith, n); connected = refl })
]

same-Gives : (s : Setting) {o o' : Options} → o ≡ o' → Gives none s o o'
same-Gives s e = record {
  opt = ap (λ p. p.opt s) (sym e);
  cfg = ap (λ p. p.cfg s) (sym e);
  connected = ap (λ p. p.connected) (sym e);
}

read_argument-Gives :
    (a : Argument) (s : Setting) (o o' : Options)
    → read_argument a o ≡ some o'
    → Gives (given_by a s) s o o'
unfolding read_argument given_by
read_argument-Gives debug_mode s o o' h =
    let e = sym (some-inj h) in
    record {
      opt = ap (λ p. p.opt s) e;
      cfg = ap (λ p. p.cfg s) e;
      connected = ap (λ p. p.connected) e;
    }
read_argument-Gives debug_log s o o' h =
    rw (sym (some-inj h)) (set_opt-Gives debug_logfile s (pos 1) o)
read_argument-Gives kernel_debug s o o' h = rw (sym (some-inj h)) (set_opt-Gives debug s (pos 1) o)
read_argument-Gives plock_debugging s o o' h =
    rw (sym (some-inj h)) (set_opt-Gives plock_debug s (pos 1) o)
read_argument-Gives (valued x v) s o o' h = rw (sym (some-inj h)) (set_opt-Gives x s v o)
read_argument-Gives usage s o o' h = cc
read_argument-Gives version s o o' h = cc
read_argument-Gives unknown_option s o o' h = cc

Gives-then :
    (v w : Option ℤ) (s : Setting) (o p q : Options)
    → Gives v s o p
    → Gives w s p q
    → Gives (later w v) s o q
Gives-then v none s o p q a b = record {
  opt = b.opt ∙ a.opt;
  cfg = b.cfg ∙ a.cfg;
  connected = b.connected ∙ a.connected;
}
Gives-then v (some y) s o p q a b = record {
  opt = b.opt;
  cfg = b.cfg;
  connected = b.connected ∙ a.connected;
}

-- The end of `read_arguments`.
abbrev from_environment : Bool → Options → Options
from_environment in_environment o = if in_environment then set_opt debug_logfile (pos 1) o else o

-- One argument, and those behind it.
read_next-Gives :
    (in_environment : Bool) (v w : Option ℤ) (rest : List Argument) (s : Setting) (o p : Options)
    → ((o' : Options)
        → read_args rest o' ≡ some p
        → Gives w s o' (from_environment in_environment p))
    → (next : Option Options) → ((o' : Options) → next ≡ some o' → Gives v s o o')
    → (elim next [ none ↦ none | some o' ↦ read_args rest o' ]) ≡ some p
    → Gives (later w v) s o (from_environment in_environment p)
read_next-Gives in_environment v w rest s o p behind none first h = cc
read_next-Gives in_environment v w rest s o p behind (some o') first h =
    Gives-then v w s o o' _ (first o' refl) (behind o' h)

read_args-Gives :
    (in_environment : Bool) (args : List Argument) (s : Setting) (o p : Options)
    → read_args args o ≡ some p
    → Gives (given in_environment args s) s o (from_environment in_environment p)
unfolding read_args given given_by
read_args-Gives true [] s o p h = rw (sym (some-inj h)) (set_opt-Gives debug_logfile s (pos 1) o)
read_args-Gives false [] s o p h = same-Gives s (some-inj h)
read_args-Gives in_environment (a ∷ rest) s o p h =
    read_next-Gives in_environment (given_by a s) (given in_environment rest s) rest s o p
      (λ o' e. read_args-Gives in_environment rest s o' p e) (read_argument a o)
      (λ o' e. read_argument-Gives a s o o' e) h

-- The settings that no branch reads have no value in cluster.conf.
read_conf-none :
    (conf : Conf) (s : Setting)
    → (is_in s at_start || is_in s while_running) ≡ false
    → read_conf conf s ≡ none
unfolding read_conf
read_conf-none conf debug_logfile h = refl
read_conf-none conf s h = cc

both-cfg :
    (conf : Conf) (xs ys : List Setting) (s : Setting) (o : Options)
    → (read_settings conf ys (read_settings conf xs o)).cfg s
      ≡ (if (is_in s xs || is_in s ys) && not (o.opt s) then chosen conf s (o.cfg s) else o.cfg s)
both-cfg conf xs ys s o = ground (
  arith,
  read_settings-cfg conf ys s (read_settings conf xs o),
  read_settings-cfg conf xs s o,
  ap (λ f. f s) (read_settings-opt conf xs o),
  value_or_twice (read_conf conf s) (o.cfg s),
  ap (chosen conf s) (read_settings-cfg conf xs s o),
)

all_read :
    (conf : Conf) (s : Setting) (o : Options)
    → (read_settings conf while_running (read_settings conf at_start o)).cfg s
      ≡ (if o.opt s then o.cfg s else chosen conf s (o.cfg s))
all_read conf s o = elim (Bool-cases (is_in s at_start || is_in s while_running)) [
  | inl y ↦ both-cfg conf at_start while_running s o ∙ rw y (ground arith)
  | inr n ↦
      both-cfg conf at_start while_running s o
      ∙ rw n (ground (arith, ap (λ v. value_or v (o.cfg s)) (read_conf-none conf s n)))
]

setup_ccs-cfg :
    (conf : Conf) (s : Setting) (o : Options)
    → o.connected ≡ false
    → conf.connects ≡ true
    → (setup_ccs conf o).1.cfg s ≡ (if o.opt s then o.cfg s else chosen conf s (o.cfg s))
unfolding setup_ccs
setup_ccs-cfg conf s o first connects =
    rw (first, connects) (all_read conf s (record o { connected = true }))

read_arguments-Gives :
    (in_environment : Bool) (args : List Argument) (s : Setting) (o : Options)
    → (read : Option Options)
    → ((p : Options)
        → read ≡ some p
        → Gives (given in_environment args s) s defaults (from_environment in_environment p))
    → (elim read [ none ↦ none | some p ↦ some (from_environment in_environment p) ]) ≡ some o
    → Gives (given in_environment args s) s defaults o
read_arguments-Gives in_environment args s o none k h = cc
read_arguments-Gives in_environment args s o (some p) k h = rw (sym (some-inj h)) (k p refl)

-- `read_arguments` starts without options from the command line.
start-Gives :
    (v : Option ℤ) (s : Setting) (b : Bool) (o q : Options)
    → o.opt s ≡ (if b then false else false)
    → o.cfg s ≡ default_value s
    → o.connected ≡ false
    → Gives v s o q
    → Gives v s defaults q
start-Gives v s b o q eo ec en g = record {
  opt = ground (arith, g.opt);
  cfg = g.cfg ∙ ap (value_of v) ec;
  connected = g.connected ∙ en;
}

-- Where the arguments do not end the program and ccs can be reached, each setting has the value
-- that the command line or DLM_CONTROLD_DEBUG gives last, or else the one that read_conf finds
-- in cluster.conf, or else its default.
pub setup_ccs-read_arguments :
    (conf : Conf) (in_environment : Bool) (args : List Argument) (s : Setting) (o : Options)
    → read_arguments in_environment args defaults ≡ some o
    → conf.connects ≡ true
    → (setup_ccs conf o).1.cfg s
      ≡ value_of (given in_environment args s) (chosen conf s (default_value s))
unfolding read_arguments
setup_ccs-read_arguments conf in_environment args s o h connects =
    let o0 : Options = record defaults {
      opt = λ x. if code timewarn == code x then false else false;
    } in
    let g : Gives (given in_environment args s) s defaults o =
      read_arguments-Gives in_environment args s o (read_args args o0)
        (λ p e.
          start-Gives _ s (code timewarn == code s) o0 _ refl refl refl
            (read_args-Gives in_environment args s o0 p e))
        h in
    setup_ccs-cfg conf s o g.connected connects ∙ ground (arith, g.opt, g.cfg)
