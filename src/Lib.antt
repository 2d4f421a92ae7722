-- ===== src/Lib.antt =====
-- iorapd, the I/O prefetcher of Android: it traces the page cache accesses of app launches, and reads
-- the recorded pages ahead when an app is launched again.
--
-- The parts that are modelled, and how they interact:
--
-- * The event manager (src/manager/event_manager.cc, include/binder/app_launch_event.h) gets the
--   launch events of the system. AppLaunchEventDefender enforces the order of a launch sequence
--   (Launch/Defender), AppLaunchEventState starts and ends traces and readahead (Launch/State,
--   Launch/Trace, Launch/History, with a function per case of OnNewEvent in Launch/Handler), and
--   EventManager::Impl::OnAppLaunchEvent puts them together (Launch/Manager). The state asks for
--   component names (Component, of src/db/app_component_name.h) and package versions (Versions, of
--   src/binder/package_version_map.cc). Launch/Diagram is the documented transition diagram;
--   Launch/Ready states the invariant that Starts, Steps, Launched and Runs are about; Launch/Quiet,
--   Ending and Chains are about the history chains that the state's traces wait for.
--   The events come as parcels (Parcels, of include/binder/app_launch_event.h; Parcels/RoundTrip).
-- * The prefetcher daemon (src/prefetcher) is a process of its own. A client's SessionIndirect sends
--   it commands (Session/Indirect, SendCommand and SessionIndirect), which Command::Write and
--   Command::Read code as bytes (Wire). CommandParser cuts the stream into commands (Stream).
--   PrefetcherDaemon::Impl::Main and ReceiveCommand run them (Session/Daemon) on direct sessions
--   (Session, Session/Direct, Session/Files for SessionDirect of session.cc).
--   Wire/RoundTrip and Wire/Prefix are about single commands, Stream/Frames is the abstract split of
--   a byte stream, Stream/Loop, Stream/Total and Stream/Sockets relate the parser's loops to it, and
--   Session/Serve and Session/Remote relate the daemon to the commands and to the client's requests.
--   ReadAhead of read_ahead.cc (Tasks) begins and finishes the tasks that launch events ask for, by
--   calls to a session manager (session_manager.cc); Tasks/Calls and Tasks/Life are about such tasks.
--   Session/Maps and Session/Steps are about the maps of a session, Session/Balance and
--   Session/Release about its memory mappings, Session/Healthy about the daemon's sessions.
-- * The raw traces of a component, of which DeleteOlderFiles of src/db/file_models.cc keeps the newest,
--   are a table with the queries of RawTraceModel of src/db/models.h (Traces, Traces/Oldest).
-- * The trace compiler (src/compiler/compiler.cc) makes the file that readahead processes from traces.
--   Compiler is the selection of page cache events from a trace, Compiler/Resolve the chains that name
--   their files, Compiler/Merge the two ordered sets of CompilePageCacheEvents (Prelude/OrderedSet, with
--   multiless as the order of tuples in Prelude/Order), Compiler/Output the TraceFile and
--   PerformCompilation. Compiler/Start, Select and Limits are about the selection, Resolved about the
--   chains, Earliest and Compiled about the sets, Decode about the file, Perform about the whole. Inodes
--   is src/inode2filename/inode.h, and Inodes/Parse inode.cc.
-- * iorap.cmd.compiler (src/compiler/main.cc, Compiler/Arguments) is started by the maintenance
--   (src/maintenance/controller.cc, Maintenance), and Maintenance/Command is about its arguments.
--   Maintenance/Compile is the compilation of activities and packages, into the files of
--   src/db/file_models.cc (Database/Files); Maintenance/Kept and Compiled are about the tables then.
--   The event manager's jobs (Jobs, Jobs/Maintained) update the versions, clean up, and compile.
-- * The sqlite tables (src/db/models.h) are lists of rows (Database), with the models' statements
--   (Database/Queries) and the deletion of files with their rows (Database/CleanUp, of
--   src/db/clean_up.cc and src/maintenance/db_cleaner.cc). Database/Tables, Integrity, Select, Cascade,
--   Cleaned and Stale are about them. A new row's id is one more than the greatest one in its table.
-- * Traces are taken by perfetto. PerfettoConsumerImpl::Impl (src/perfetto/perfetto_consumer.cc,
--   Perfetto, with Perfetto/Messages) tracks the handles; Perfetto/Sections, Balance, Balanced and Runs
--   are about the atrace sections that it begins and ends. StateChangedSubject (Perfetto/Subject, of
--   src/perfetto/rx_producer.cc) makes an rx stream of what perfetto reports; Perfetto/Emissions and
--   Stream are about that stream.
--
-- Conventions. The state of an object is a record with the fields' names; an operation takes the state
-- and returns the next one. LOG(FATAL), a failed CHECK or DCHECK, an exception that nothing catches,
-- and the use of an empty optional or a null pointer are `fatal` of Outcome (Prelude/Outcome); a DCHECK
-- counts as in a debug build. An unordered_map is an association list (Prelude/Assoc), a string the list of its bytes. Machine
-- integers are numbers; conversions that can lose bits are written out. System calls, the package
-- manager, sqlite, the file system, perfetto and the rx library are not part of the repository: what
-- they answer is an argument (Kernel, Env, CompilerHost, MaintenanceHost, JobHost, ParcelLibrary), which
-- is arbitrary unless a theorem names what it takes them to do, and calls to them are recorded in the
-- state where a theorem speaks of them.
--
-- The parser's loops run on fuel: one more than the bytes in the buffer, which is enough since every
-- command has at least four bytes, those of its number.
--
-- An rx chain is the list of what it emits, and its operators act on that list; the subscribers of the
-- modelled chains stay until the end.
--
-- Not modelled: the inode search (src/inode2filename), whose core is rx operators; the rx code of
-- src/perfetto that is chains of operators, and the protobuf files, which are bindings to other
-- libraries; sqlite itself; printing, the other command line tools, fork and minijail.
-- Threads are not modelled: each modelled object is used from one thread or under a lock, and the events
-- and commands of a run are a sequence.

pub mod Prelude
pub mod Wire
pub mod Stream
pub mod Component
pub mod Versions
pub mod Launch
pub mod Session
pub mod Tasks
pub mod Traces
pub mod Database
pub mod Inodes
pub mod Compiler
pub mod Maintenance
pub mod Parcels
pub mod Jobs
pub mod Perfetto
mod Scenarios
