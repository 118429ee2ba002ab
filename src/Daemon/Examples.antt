-- ===== src/Daemon/Examples.antt =====
-- The daemon at concrete inputs.
use dlm.Base.{ℕ, zero, suc, ◌≡◌, refl, true, false, none, some, List, [], ◌∷◌, arith, map}
use dlm.Group.Types.{Space}
use dlm.Daemon.Clients.{Client, process_listener, process_uevent, client_dead_fn, Work, slot}
use dlm.Daemon.Spaces.{
  Daemon, JoinEnv, cpg_ok, try_again, cpg_error, minus_one, zero_answer, reply, event_done,
  cpg_finalize,
}
use dlm.Daemon.Requests.{Request, request, connected, uevent, left_group, hangup, get_args}
use dlm.Daemon.Consistent.{IsConsistent, IsPolled}
use dlm.Daemon.Trace.{Call, serve_all, serve_all-IsConsistent}

abbrev permanent : ℕ → Work → Client
permanent fd work = record {
  fd = some fd;
  work = some work;
  dead = some client_dead_fn;
  polled = some fd;
}

false-ne-true : false ≡ true → ⊥
false-ne-true h = cc

-- A listener and the socket for uevents, in a table that is full.
abbrev idle : Daemon
idle = record {
  spaces = [];
  registered = [];
  table = record {
    clients = permanent 5 process_listener ∷ permanent 6 process_uevent ∷ [];
    maxi = 1;
  };
  mem = [];
  out = [];
  stale = λ names. b'z' ∷ [];
}

idle-IsPolled : IsPolled idle.table
unfolding slot
idle-IsPolled zero h = omega arith
idle-IsPolled (suc zero) h = omega arith
idle-IsPolled (suc (suc i)) h = absurd (false-ne-true h)

idle-IsConsistent : IsConsistent idle
idle-IsConsistent = record { distinct = tt; names = tt; served = tt; polled = idle-IsPolled }

abbrev joins : JoinEnv
joins = record {
  enable_fencing = true;
  fence_domain = true;
  cpg_initialize = some (40, 9);
  join_answers = try_again ∷ cpg_ok ∷ [];
}

abbrev fails : JoinEnv
fails = record joins { join_answers = try_again ∷ cpg_error ∷ [] }

-- "online@/kernel/dlm/x" and "offline@/kernel/dlm/x"
abbrev kernel_dlm_x : List ℕ
kernel_dlm_x =
    b'@' ∷ b'/' ∷ b'k' ∷ b'e' ∷ b'r' ∷ b'n' ∷ b'e' ∷ b'l' ∷ b'/' ∷ b'd' ∷ b'l' ∷ b'm' ∷ b'/' ∷ b'x'
    ∷ []

abbrev x_online : List ℕ
x_online = b'o' ∷ b'n' ∷ b'l' ∷ b'i' ∷ b'n' ∷ b'e' ∷ kernel_dlm_x

abbrev x_offline : List ℕ
x_offline = b'o' ∷ b'f' ∷ b'f' ∷ b'l' ∷ b'i' ∷ b'n' ∷ b'e' ∷ kernel_dlm_x

abbrev x : List ℕ
x = b'x' ∷ []

abbrev register_x : Request
register_x = record {
  magic = 0xd13cd13c;
  version = 0x00010001;
  extra = none;
  command = 7;
  payload = 0;
  name = x;
}

-- A client connects and registers x; x fails to join, and joins; it leaves, and the client hangs up.
abbrev calls : List Call
calls =
    record { env = joins; ci = 0; input = connected (some 8) }
    ∷ record { env = joins; ci = 2; input = request (some register_x) }
    ∷ record { env = fails; ci = 1; input = uevent x_online }
    ∷ record { env = joins; ci = 1; input = uevent x_online }
    ∷ []

abbrev more_calls : List Call
more_calls =
    record { env = joins; ci = 1; input = uevent x_offline }
    ∷ record { env = joins; ci = 3; input = left_group }
    ∷ record { env = joins; ci = 2; input = hangup }
    ∷ []

arguments :
    get_args 3 x_online
    ≡ (b'o' ∷ b'n' ∷ b'l' ∷ b'i' ∷ b'n' ∷ b'e' ∷ b'@' ∷ [])
      ∷ (b'k' ∷ b'e' ∷ b'r' ∷ b'n' ∷ b'e' ∷ b'l' ∷ [])
      ∷ (b'd' ∷ b'l' ∷ b'm' ∷ [])
      ∷ x
      ∷ []
unfolding get_args
arguments = refl

joined : Daemon
unfolding serve_all
joined = serve_all calls idle

marked : map (λ (ls : Space). ls.fs_registered) joined.spaces ≡ true ∷ []
unfolding joined
marked = refl

told :
    joined.out
    ≡ reply (some 8) 7 x zero_answer 0
      ∷ cpg_finalize 40
      ∷ cpg_finalize 40
      ∷ event_done x minus_one
      ∷ []
unfolding joined
told = refl

gone : (serve_all more_calls joined).spaces ≡ []
unfolding joined serve_all
gone = refl

serve_all-IsConsistent_example : IsConsistent joined
unfolding joined
serve_all-IsConsistent_example = serve_all-IsConsistent calls idle (omega arith) idle-IsConsistent
