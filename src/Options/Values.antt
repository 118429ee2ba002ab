-- ===== src/Options/Values.antt =====
-- group/dlm_controld/config.c: what the branches of setup_ccs leave in the settings.
use dlm.Base.{
  ℕ, ◌≡◌, refl, sym, ap, ◌∙◌, Bool, true, false, not, ◌&&◌, ◌||◌, Option, none, some, List, [], ◌∷◌,
  ◌==◌, if◌then◌else◌, arith, Bool-cases, inl, inr, ==→eq,
}
use dlm.Configfs.Weight.{ℤ, pos}
use dlm.Options.{
  Setting, debug, timewarn, protocol, debug_logfile, enable_fencing, enable_quorum, enable_deadlk,
  enable_plock, plock_debug, plock_rate_limit, plock_ownership, drop_resources_time,
  drop_resources_count, drop_resources_age, code, Options, set_cfg, Conf, read_conf, read_setting,
  read_settings,
}

decode : ℕ → Setting
decode n =
    if n == 0
    then debug
    else if n == 1
    then timewarn
    else if n == 2
    then protocol
    else if n == 3
    then debug_logfile
    else if n == 4
    then enable_fencing
    else if n == 5
    then enable_quorum
    else if n == 6
    then enable_deadlk
    else if n == 7
    then enable_plock
    else if n == 8
    then plock_debug
    else if n == 9
    then plock_rate_limit
    else if n == 10
    then plock_ownership
    else if n == 11
    then drop_resources_time
    else if n == 12
    then drop_resources_count
    else drop_resources_age

decode-code : (s : Setting) → decode (code s) ≡ s
unfolding decode
decode-code debug = refl
decode-code timewarn = refl
decode-code protocol = refl
decode-code debug_logfile = refl
decode-code enable_fencing = refl
decode-code enable_quorum = refl
decode-code enable_deadlk = refl
decode-code enable_plock = refl
decode-code plock_debug = refl
decode-code plock_rate_limit = refl
decode-code plock_ownership = refl
decode-code drop_resources_time = refl
decode-code drop_resources_count = refl
decode-code drop_resources_age = refl

code→eq : (x s : Setting) → (code x == code s) ≡ true → x ≡ s
code→eq x s h = sym (decode-code x) ∙ ap decode (==→eq (code x) (code s) h) ∙ decode-code s

-- The value from cluster.conf, or else the one that was there.
abbrev pub value_or : Option ℕ → ℤ → ℤ
value_or none old = old
value_or (some v) old = pos v

abbrev pub chosen : Conf → Setting → ℤ → ℤ
chosen conf s old = value_or (read_conf conf s) old

abbrev pub is_in : Setting → List Setting → Bool
is_in s [] = false
is_in s (x ∷ rest) = code x == code s || is_in s rest

read_setting-opt : (conf : Conf) (x : Setting) (o : Options) → (read_setting conf x o).opt ≡ o.opt
unfolding read_setting set_cfg
read_setting-opt conf x o = ground arith

read_setting-cfg :
    (conf : Conf) (x s : Setting) (o : Options)
    → (read_setting conf x o).cfg s
      ≡ (if code x == code s && not (o.opt s) then chosen conf s (o.cfg s) else o.cfg s)
unfolding read_setting set_cfg
read_setting-cfg conf x s o = elim (Bool-cases (code x == code s)) [
  | inr n ↦ ground (arith, n)
  | inl y ↦ ground (arith, y, ap o.opt (code→eq x s y), ap (read_conf conf) (code→eq x s y))
]

pub value_or_twice : (v : Option ℕ) (old : ℤ) → value_or v (value_or v old) ≡ value_or v old
value_or_twice none old = refl
value_or_twice (some v) old = refl

-- Some of the branches: the settings in the list that were not given are chosen.
pub read_settings-cfg :
    (conf : Conf) (xs : List Setting) (s : Setting) (o : Options)
    → (read_settings conf xs o).cfg s
      ≡ (if is_in s xs && not (o.opt s) then chosen conf s (o.cfg s) else o.cfg s)
unfolding read_settings
read_settings-cfg conf [] s o = refl
read_settings-cfg conf (x ∷ rest) s o = ground (
  arith,
  read_settings-cfg conf rest s (read_setting conf x o),
  read_setting-cfg conf x s o,
  ap (λ f. f s) (read_setting-opt conf x o),
  value_or_twice (read_conf conf s) (o.cfg s),
  ap (chosen conf s) (read_setting-cfg conf x s o),
)

pub read_settings-opt :
    (conf : Conf) (xs : List Setting) (o : Options) → (read_settings conf xs o).opt ≡ o.opt
unfolding read_settings
read_settings-opt conf [] o = refl
read_settings-opt conf (x ∷ rest) o =
    read_settings-opt conf rest (read_setting conf x o) ∙ read_setting-opt conf x o
