-- ===== src/Tests/Systems.antt =====
-- Concrete systems for the tests: a kernel that grants everything, and operating systems that differ
-- in their clock, in `fork` and in what `waitpid` says.
use relaunchd.Prelude.{
  List, length, ℕ, zero, suc, ◌*◌, String, Bool, true, false, Option, none, some, [], ◌∷◌,
}
use relaunchd.Prelude.Int.{ℤ, pos, minus_one}
use relaunchd.Prelude.Exec.{pure, ok}
use relaunchd.Manifest.{Manifest, default_manifest}
use relaunchd.ExecStatus.{PipeRead}
use relaunchd.Event.{KernelEventInterface, EventManager}
use relaunchd.StateFile.{StateFile, Disk}
use relaunchd.Os.{Os, Call, Errno, Trace}
use relaunchd.Job.{Job, Sys, Platform, States, new_job}
use relaunchd.Net.{Net, NetCall}
use relaunchd.Channel.{Channel, JsonText}
use relaunchd.Tests.Values.{Value, object, entry, nil, flag, json}

abbrev pub kernel : KernelEventInterface Unit
kernel = record {
  wait_for_event = λ t. pure none;
  monitor_child_process = λ n. pure tt;
  ignore_child_process = λ n. pure tt;
  monitor_signal = λ n. pure tt;
  monitor_socket_read = λ n. pure tt;
  ignore_socket_read = λ n. pure tt;
  monitor_timer = λ n m. pure tt;
  ignore_timer = λ n. pure tt;
  handle_fork = pure tt;
}

-- how often the clock was read, and children were waited for
abbrev pub readings : Trace → ℕ
readings [] = 0
readings (Call.clock_gettime ∷ t) = suc (readings t)
readings (c ∷ t) = readings t

abbrev pub waits : Trace → ℕ
waits [] = 0
waits (Call.waitpid n ∷ t) = suc (waits t)
waits (c ∷ t) = waits t

-- the first `waitpid` reaps a child, the second says that there is none
abbrev one_child : ℕ → Option Errno
one_child zero = none
one_child (suc n) = some Errno.echild

-- each reading of the clock is 10 seconds after the one before
abbrev pub system : ℤ → Os
system child = record {
  clock = λ t. 10 * readings t;
  fork_answer = λ t. child;
  getpgid_answer = λ t pid. pid;
  kill_answer = λ t pid n. none;
  killpg_answer = λ t pid n. none;
  waitpid_fails = λ t pid. one_child (waits t);
  pipe_read = λ t. PipeRead.end_of_file;
  pipe_succeeds = λ t. true;
  rename_succeeds = λ t. true;
  child_answer = λ t c. none;
  getpwnam = λ name. none;
  getgrnam = λ name. none;
  getuid = 0;
  getpwuid = λ uid. none;
  group_bound = 4;
}

abbrev pub platform : Platform Unit Value
platform = record { kernel = kernel; json = json; os = system (pos 42); write_failure = λ t. none }

-- one where `fork` fails
abbrev pub exhausted : Platform Unit Value
exhausted = record {
  kernel = kernel;
  json = json;
  os = system minus_one;
  write_failure = λ t. none;
}

abbrev pub no_events : EventManager Unit
no_events = record {
  signal_callbacks = [];
  process_callbacks = [];
  socket_read_callbacks = [];
  timer_callbacks = [];
  ipc_callbacks = [];
  timer_id_max = 0;
  impl = record { child_status = []; blocked_signals = []; pending_events = []; derived = tt };
}

-- the document of a state file in which one job is disabled
abbrev pub document : Value
document = object (
    entry "Overrides"
      (object (entry "com.example.off" (object (entry "Enabled" (flag false) nil)) nil)) nil)

abbrev pub saved : StateFile Value
saved = record {
  data_path = "state.json";
  default_value = document;
  current_value = document;
  on_disk = Disk.written document;
}

abbrev pub manifest_of : String → Bool → Option ℕ → Manifest
manifest_of label keep interval = record default_manifest {
  label = record { value = label };
  program = some "/bin/true";
  program_arguments = "/bin/true" ∷ [];
  keep_alive = record { always = keep };
  start_interval = interval;
}

abbrev pub loaded_job : Manifest → Sys Unit Value
loaded_job m = record { job = new_job none m; events = no_events; state_file = saved; trace = [] }

-- a job whose process 42 leads the group 42
abbrev pub running_job : String → Bool → Bool → Sys Unit Value
running_job label keep unload = record {
  job = record {
    started_at = some 0;
    manifest_path = none;
    manifest = manifest_of label keep none;
    pid = pos 42;
    pgid = pos 42;
    last_exit_status = pos 0;
    term_signal = 0;
    schedule = relaunchd.Job.Schedule.schedule_none;
    state = States.running;
    timer_id = none;
    unload_requested = unload;
  };
  events = no_events;
  state_file = saved;
  trace = [];
}

-- what a call on sockets returns where it succeeds
abbrev answered : NetCall → ℤ
answered NetCall.socket = pos 5
answered (NetCall.accept fd) = pos 6
answered (NetCall.write fd bytes) = pos (length bytes)
answered call = pos 0

-- a network that grants everything, and at which `bytes` arrive
abbrev pub net_with : List ℕ → Net
net_with bytes = record {
  answer = λ calls. answered;
  errno = λ calls call. 0;
  incoming = λ calls fd. bytes;
  garbage = λ calls. [];
}

-- a text format for which one message arrives
abbrev pub text_of : Value → JsonText Value
text_of message = record { dump = λ v. 123 ∷ []; parse = λ bytes. ok message }

abbrev pub listening : Channel
listening = record { sockfd = pos 5; peerfd = minus_one; calls = [] }
