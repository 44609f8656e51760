-- ===== src/Proc/LogOption.antt =====
-- pkg/monny/proc/logopt.go with NewLogProcessor of logs.go: the options of the log processor and
-- the sinks of its sources. `sort.Slice` is a parameter; readers and writers are left out, so that
-- a sink is its name.
pub mod Order
pub mod Sorting
use monny.Base.{
  ℕ, ◌==◌, String, str_eq, Bool, true, false, List, [], ◌∷◌, ◌++◌, Option, none, some,
  if◌then◌else◌,
}
use monny.Proc.Queue.{Queue, new_queue}

pub data SourceOrSink : Type 0 where
  p_stdout p_stderr p_stdin m_stdout m_stderr m_stdin logfile : SourceOrSink

-- the constants, which count from one
abbrev pub number_of : SourceOrSink → ℕ
number_of p_stdout = 1
number_of p_stderr = 2
number_of p_stdin = 3
number_of m_stdout = 4
number_of m_stderr = 5
number_of m_stdin = 6
number_of logfile = 7

abbrev pub is_same : SourceOrSink → SourceOrSink → Bool
is_same a b = number_of a == number_of b

pub record Source : Type 0 where
  pub name : SourceOrSink
  pub q : Queue String

pub record LogProcOpt : Type 0 where
  pub hist : ℕ
  pub sources : List Source
  pub sinks : List SourceOrSink

-- What the options ask a command: its path, and whether its pipes can be had.
pub record Cmd : Type 0 where
  pub path : String
  pub stdout_pipe : Bool
  pub stderr_pipe : Bool

pub data LogOption : Type 0 where
  with_history : ℕ → LogOption
  with_command : Cmd → LogOption
  with_no_stdout_output with_no_stderr_output with_no_output : LogOption
  with_no_stdout_input with_no_stderr_input : LogOption

abbrev pub priority : LogOption → ℕ
priority (with_history h) = 0
priority (with_command c) = 1
priority with_no_stdout_output = 2
priority with_no_stderr_output = 3
priority with_no_output = 4
priority with_no_stdout_input = 5
priority with_no_stderr_input = 6

-- `filterSink(sinks, target)`
unfoldable pub filter_sink : List SourceOrSink → SourceOrSink → List SourceOrSink
filter_sink [] target = []
filter_sink (s ∷ sinks) target =
    let rest = filter_sink sinks target in if is_same s target then rest else s ∷ rest

-- `filterSource(sources, target)`
unfoldable pub filter_source : List Source → SourceOrSink → List Source
filter_source [] target = []
filter_source (s ∷ sources) target =
    let rest = filter_source sources target in if is_same s.name target then rest else s ∷ rest

abbrev new_source : SourceOrSink → LogProcOpt → Source
new_source name l = record { name = name; q = new_queue l.hist }

-- the function of WithCommand
unfoldable pub add_command : Cmd → LogProcOpt → Option LogProcOpt
add_command c l =
    if str_eq c.path ""
    then some (record l {
      sources = l.sources ++ new_source m_stdin l ∷ [];
      sinks = l.sinks ++ m_stdout ∷ [];
    })
    else (if c.stdout_pipe
        then (if c.stderr_pipe
            then some (record l {
              sources = l.sources ++ new_source p_stdout l ∷ new_source p_stderr l ∷ [];
              sinks = l.sinks ++ m_stdout ∷ m_stderr ∷ [];
            })
            else none)
        else none)

-- `apply`; none is an error
unfoldable pub apply : LogOption → LogProcOpt → Option LogProcOpt
unfolding add_command filter_sink filter_source
apply (with_history h) l = some (record l { hist = h })
apply (with_command c) l = add_command c l
apply with_no_stdout_output l = some (record l { sinks = filter_sink l.sinks m_stdout })
apply with_no_stderr_output l = some (record l { sinks = filter_sink l.sinks m_stderr })
apply with_no_output l = some (record l { sinks = [] })
apply with_no_stdout_input l = some (record l { sources = filter_source l.sources p_stdout })
apply with_no_stderr_input l = some (record l { sources = filter_source l.sources p_stderr })

abbrev apply_then : Option LogProcOpt → (LogProcOpt → Option LogProcOpt) → Option LogProcOpt
apply_then none f = none
apply_then (some l) f = f l

unfoldable pub apply_all : List LogOption → LogProcOpt → Option LogProcOpt
unfolding apply
apply_all [] l = some l
apply_all (opt ∷ opts) l = apply_then (apply opt l) (apply_all opts)

-- the sinks that the emitter of a source gets
unfoldable pub sinks_for : SourceOrSink → List SourceOrSink → List SourceOrSink
unfolding filter_sink
sinks_for p_stdout sinks = filter_sink sinks m_stderr
sinks_for p_stderr sinks = filter_sink sinks m_stdout
sinks_for _ sinks = sinks

-- the emitters that are started
unfoldable pub emitters : List Source → List SourceOrSink → List (Source × List SourceOrSink)
unfolding sinks_for
emitters [] sinks = []
emitters (s ∷ sources) sinks = (s, sinks_for s.name sinks) ∷ emitters sources sinks

abbrev pub start : Option LogProcOpt → Option (List (Source × List SourceOrSink))
unfolding emitters
start none = none
start (some l) = some (emitters l.sources l.sinks)

abbrev pub default_options : LogProcOpt
default_options = record { hist = 30; sources = []; sinks = [] }

-- `NewLogProcessor(eb, options...)`, with the emitters that it starts
unfoldable pub new_log_processor :
    (List LogOption → List LogOption) → List LogOption → Option (List (Source × List SourceOrSink))
unfolding apply_all emitters
new_log_processor sort options = start (apply_all (sort options) default_options)
