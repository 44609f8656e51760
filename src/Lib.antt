-- ===== src/Lib.antt =====
-- Monny runs a command, watches its output, memory and running time, and reports to a server.
-- Beside that it has packages for finite state machines, for series and counters, for the
-- statistical tests that raise alarms over a series of observations, and for an event bus.
--
-- The parts, the files that model them and the source that they translate:
--   Fsm      pkg/fsm. Fsm/Defs is `Machine` with its options, guards, `Transition` and `Reset`;
--            Fsm/Nonce is `MachineNonce`, with the bytes of `rand.Read` as an argument.
--   Metric   pkg/metric. Metric/Series is the ring of `Series`, Metric/Sampled the `SampledSeries`
--            whose goroutine is the operation `tick`, Metric/Counter the two counters,
--            whose values wrap around at 64 bits, Metric/Counter/Concurrent goroutines that add to
--            a ConcurrentCounter;
--            Metric/Name is name.go, with the maps that names share in a store;
--            Metric/Recorder is the interface `SeriesRecorder` with what its clients rely on.
--   Stat     pkg/stat. Stat/Machine is state.go, Stat/Pdf the distributions with their k,
--            Stat/Statistic the EWMA statistic of estimator.go, which stands on a machine of Fsm
--            and on a recorder of Metric, Stat/Suite the tests of several statistics, and
--            Stat/Calibrate the two measurements of calibrate.go, on the numbers of their generators.
--   Rng      pkg/rng: the two generators, over the sequence of numbers that their source gives.
--   Proc     pkg/monny/proc. Proc/Queue is the queue of recent lines, Proc/LogOption the options of
--            the log processor with NewLogProcessor, and Proc/Logs the loop of an emitter, which
--            stands on the queue and on the bus of Eventbus; Proc/Waiting is Wait with its wait group.
--   Command  the state of pkg/monny/command.go, the handlers of handlers.go (Command/Handlers) and
--            the loop of Exec that calls them (Command/Loop). A handler returns the command and the
--            reports that it starts to send; a run of the loop is a list of events. Command/Output
--            is the processing of a line of output, with the packages regexp, encoding/json and fmt
--            as parameters; Command/Exec is the start of the process and the turns that the loop and
--            the goroutines for input and output take, with what the system answers beside each.
--            Command/Smaps is memory.go and env.go.
--   Main     cmd/monny/main.go with New of command.go: from the arguments to the exit code. A run is
--            a list of turns: what happens in Exec, and the begin and the end of each send of a report.
--   Report   pkg/monny/report.go: which reports are sent, and what a send does to the command.
--            Report/Warnings has the runs in which the loop and the sends that it started interleave,
--            Report/Goroutines the goroutines behind a send, with their channels and the wait group,
--            and Report/Message the message, with encoding/json as a parameter. Report/ErrorService
--            is error.go.
--   Config   pkg/monny/config.go: Config/Record has its types, Config/Options the functional options
--            and newConfig, with regexp, time, os/exec and the environment as parameters. An option
--            is the function that made the closure with its argument.
--   Parse    pkg/monny/parse.go, the options of the command line and of a file, with pflag and yaml
--            as parameters; its options are those of Config/Options.
--   Eventbus pkg/eventbus/bus.go. Channels are numbers; goroutines, the full channels and the lock
--            are fields of the bus. Eventbus/Steps has its runs as sequences of steps;
--            Eventbus/Event is event.go, with encoding/gob as a parameter.
--   Proto    pkg/proto/enum.go.
--   Base     lists, tests, integers and floats that the parts share, and Base/Strconv the decimal
--            numbers of strconv.
--
-- A method that changes its receiver returns the new one, beside its error if it has one; an error
-- is an option, a panic is an `Outcome`. Each method that holds a lock is one step, and a
-- concurrent run is a list of such steps in any order; but the sends of Eventbus wait with the lock,
-- and Metric/Counter/Concurrent has the steps of a method under its lock. Times and durations are
-- whole nanoseconds in unbounded integers; readings of the clock are arguments. `float64` is an
-- interface of operations of which no law is assumed, so that the theorems hold for floats as they
-- are; only the index of a series, a remainder of whole floats, is computed, with the
-- rounding of a count above 2 ^ 53 written out over ten doublings, which cover every `int`. Counts
-- that grow by one for each call are unbounded; the value of a counter wraps around. Beside those
-- doublings one function takes fuel, the loop of the Poisson generator, for which a theorem says
-- how much is enough; all other loops go over lists.
--
-- Not modelled: what the operating system does for a process and its pipes, the transport of
-- reports, the generated code of pkg/pb and pkg/proto/enum_string.go, the main function of the
-- generator pkg/stat/calibrate.go; and, of the program's own logic, the ticker of pkg/monny/proc,
-- the method Metric of a test, and the methods of the concurrent counters but Add, each of which
-- calls one method of its counter under the lock.
pub mod Base
pub mod Fsm
pub mod Metric
pub mod Stat
pub mod Proc
pub mod Proto
pub mod Config
pub mod Command
pub mod Parse
pub mod Eventbus
pub mod Report
pub mod Rng
pub mod Main
