-- ===== src/Lib.antt =====
-- Verification of relaunchd, a service manager in the manner of launchd.
--
-- The daemon keeps a set of jobs. A job is described by a manifest, a JSON document, and lives as
-- a state machine (Loaded, Waiting, Running, Exited, Unloaded) that requests, timers and the exits of its
-- process drive. The event manager turns what the kernel reports into calls of registered
-- callbacks. The state file keeps which jobs an administrator enabled or disabled. Clients send requests
-- over a channel, which the daemon serves from its main loop.
--
-- Which file models which part (paths from the root of the repository):
--   Fsm         src/fsm.h: the engine of both state machines; Fsm.Choice says which transition it takes
--   Json        what is called of nlohmann::json, a parameter with the laws it documents
--   Manifest    src/manifest.h, src/manifest.cc: Label, Manifest, rectify, validate, from_json;
--               Manifest.Parse is parse and parse_xml
--   Signals     src/signal_names.h: getSignalByName
--   Domain      src/domain.h, src/domain.cc, src/options.cc: the load paths and the directories
--   StateFile   src/state_file.cc; StateFile.Overrides: Manager::overrideJobEnabled, Job::isDisabled;
--               StateFile.Location: Manager::createOrOpenStatefile; StateFile.Saved compares memory and disk
--               (what a write that fails leaves is an answer of the system, as no write is checked)
--   Event       src/event.h: the events, the base class of the kernel interfaces, EventManager;
--               Event.Dispatch is waitForEvent, Event.Epoll the class EpollImplementation,
--               Event.Kqueue the class KqueueImplementation
--   ExecStatus  src/exec_monitor.h: the message of a child to its parent; ExecStatus.Pipe is the pipe
--   Os          the system calls, a parameter
--   Job         src/job.h, src/job.cc: the job; Job.Process starts and reaps its process, Job.Child is the
--               child up to execve, Job.Environment its variables, Job.Timer the timer, Job.Machine is
--               initFSM, unloadJob, forceUnloadJob and the callbacks
--   Net         the calls on sockets, a parameter
--   Channel     src/channel.h, src/channel.cc: the socket, and the messages over it
--   Manager     src/manager.h, src/manager.cc: the manager; Manager.Load loads manifests, Manager.Unload
--               unloads jobs, Manager.Machine is initFSM and the signals, Manager.Loop the callbacks and
--               the main loop, Manager.Listing listJobs; Manager.Reopened is a second run of the
--               daemon
--   Rpc         Rpc.Server is src/rpc_server.cc, Rpc.Client src/rpc_client.cc; Rpc.Arguments reads the
--               arguments of a request, Rpc.Options, Rpc.Served, Rpc.Loading, Rpc.Overridden,
--               Rpc.Submission and Rpc.Submitted relate the two ends
--   Program     src/main.cc, src/launchctl.cc; Program.Launchd is src/launchd.cc
--   Wrapper     sa-wrapper/wrapper.c: the library that hands passed sockets to a server
--   Tests       the definitions and the theorems at concrete inputs
--
-- A method that changes an object is a function Exec S A = S → Result A × S: the state comes back
-- beside the exception, as what was written before a throw stays written. Failed assertions,
-- steps that C++ leaves undefined, and exceptions that leave a noexcept function are errors of their
-- own. Closures are values that name the closure and what it captured. A job works on Sys: itself, the
-- event manager and the state file that it shares, and the trace of all system calls so far. A channel
-- keeps the calls on its sockets. What a
-- call answers is a function of that trace, so that the theorems hold for every system.
--
-- Bounds and fuel. EventManager::getNextTimerId gets one round more than there are timers, which
-- always suffices (Event.Timers). The loop of Job::killProcessGroup gets Os.group_bound rounds, a
-- parameter: a process group with fewer children than that is reaped within it (Job.Group). The
-- actions of a job's machine call fsm.execute from at most one other action, so depth 2 is enough
-- (Job.Machine.Step). The loops of EpollImplementation and KqueueImplementation get as many rounds as a
-- parameter says, and Manager::runMainLoop any number of rounds, as it may wait for ever. Process
-- identifiers and exit statuses are integers of the model's own; the increment of a timer identifier
-- at INT_MAX is undefined behaviour; the delay of a throttled restart wraps around at 64 bits as in
-- the source, the umask at 32.
--
-- Not modelled: logging and what is printed, setlogin, and the readers of JSON and XML, which are
-- parameters. What a parent reads from its child over the pipe is an answer of the system in
-- Job.Process; Job.Child.Report says what it is.
pub mod Prelude
pub mod Fsm
pub mod Json
pub mod Manifest
pub mod Signals
pub mod Domain
pub mod StateFile
pub mod Event
pub mod ExecStatus
pub mod Os
pub mod Job
pub mod Net
pub mod Channel
pub mod Manager
pub mod Rpc
pub mod Program
pub mod Wrapper
pub mod Tests
