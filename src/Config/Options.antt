-- ===== src/Config/Options.antt =====
-- pkg/monny/config.go: the functional options and newConfig. A `ConfigOption` is a closure over
-- its argument; here it is the function that made it with that argument. What the options ask the
-- packages regexp, time and os/exec and the environment is a parameter.
use Prim.Native.Char.{code}
use Prim.Native.String.{String}
use monny.Base.{
  ℕ, ◌-◌, ◌%◌, ◌^◌, ◌==◌, Bool, true, false, List, [], ◌∷◌, ◌++◌, Option, none, some, Result, ok,
  err, str_eq, if◌then◌else◌,
}
use monny.Base.Int.{ℤ, pos, negsuc, ◌*ℤ◌}
use monny.Base.Strconv.{atoi, strip_last}
use monny.Config.Record.{Config}

pub data ConfigOption : Type 0 where
  id rule : String → ConfigOption
  json_rule : String → String → ConfigOption
  rule_quantity rule_period stdout_history stderr_history : String → ConfigOption
  no_notify_on_success no_notify_on_failure daemon : ConfigOption
  memory_warn memory_kill kill_timeout notify_timeout creates host : String → ConfigOption
  insecure no_error_reports : ConfigOption
  shell log_file : String → ConfigOption

pub data ConfigError : Type 0 where
  bad_regex bad_quantity bad_period bad_history bad_memory bad_timeout bad_host : ConfigError
  no_path no_shell no_id : ConfigError

-- `compile` is none where the expression has an error, and the compiled one is nil; `look_path`
-- is none where the executable is not found. `SHELL` reads as the empty text where it is not set.
pub record System {ℓ} (R : Type ℓ) : Type ℓ where
  pub compile : String → Option R
  pub parse_duration : String → Option ℤ
  pub look_path : String → Option String
  pub hostname : Option String
  pub shell_variable : String

-- The configuration with the global flag `SuppressErrorReporting` of error.go.
pub record Setup {ℓ} (R : Type ℓ) : Type ℓ where
  pub config : Config R
  pub suppress_errors : Bool

-- the number and the factor of a memory limit, by its last character: `strings.HasSuffix`
abbrev pub unit_of : String → Option (String × ℕ) → String × ℕ
unit_of mem none = (mem, 1)
unit_of mem (some (front, last)) =
    if last == b'K'
    then (front, 1)
    else (if last == b'M'
        then (front, 1000)
        else (if last == b'G' then (front, 1_000_000) else (mem, 1)))

abbrev pub split_unit : String → String × ℕ
split_unit mem = unit_of mem (strip_last mem)

-- `uint64(limit)` of an `int` product that may have wrapped: both work modulo 2^64
unfoldable pub to_uint64 : ℤ → ℕ
to_uint64 (pos n) = n % 2 ^ 64
to_uint64 (negsuc n) = 2 ^ 64 - 1 - n % 2 ^ 64

-- the common text of `MemoryWarn` and `MemoryKill`
unfoldable pub memory_limit : String → Option ℕ
unfolding strip_last to_uint64
memory_limit mem =
    let (number, factor) = split_unit mem in
    elim (atoi number) [ none ↦ none | some limit ↦ some (to_uint64 (limit *ℤ pos factor)) ]

-- `strings.Split(s, ":")`
unfoldable pub split_colons : String → List String
split_colons String.[] = String.[] ∷ []
split_colons (String.◌∷◌ c s) = elim (split_colons s) [
  | [] ↦ []
  | part ∷ parts ↦ if code c == b':' then String.[] ∷ part ∷ parts else String.◌∷◌ c part ∷ parts
]

module _ {ℓ} {R : Type ℓ} where
  -- an option that sets a value that it has parsed
  abbrev set_parsed {κ} :
      {A : Type κ}
      → Option A
      → ConfigError
      → Setup R
      → (A → Config R)
      → Setup R × Option ConfigError
  set_parsed none e s set = (s, some e)
  set_parsed (some a) e s set = (record s { config = set a }, none)

  abbrev add_rule : Option R → String → Setup R → Setup R × Option ConfigError
  add_rule none field s = (
    record s {
      config = record (s.config) {
        rules = s.config.rules ++ (record { field = field; regex = none }) ∷ [];
      };
    },
    some bad_regex,
  )
  add_rule (some re) field s = (
    record s {
      config = record (s.config) {
        rules = s.config.rules ++ (record { field = field; regex = some re }) ∷ [];
      };
    },
    none,
  )

  abbrev set_host : List String → Setup R → Setup R × Option ConfigError
  set_host (h ∷ p ∷ []) s = (record s { config = record (s.config) { host = h; port = p } }, none)
  set_host (h ∷ p ∷ q ∷ rest) s = (s, some bad_host)
  set_host _ s = (s, some bad_host)

  -- the call of an option
  unfoldable pub apply_option : System R → ConfigOption → Setup R → Setup R × Option ConfigError
  unfolding memory_limit split_colons
  apply_option sys (id i) s = (record s { config = record (s.config) { id = i } }, none)
  apply_option sys (rule regex) s = add_rule (sys.compile regex) "" s
  apply_option sys (json_rule field regex) s = add_rule (sys.compile regex) field s
  apply_option sys (rule_quantity q) s =
      set_parsed (atoi q) bad_quantity s (λ n. record (s.config) { rule_quantity = n })
  apply_option sys (rule_period p) s =
      set_parsed (sys.parse_duration p) bad_period s (λ d. record (s.config) { rule_period = d })
  apply_option sys (stdout_history h) s =
      set_parsed (atoi h) bad_history s (λ n. record (s.config) { stdout_history = n })
  apply_option sys (stderr_history h) s =
      set_parsed (atoi h) bad_history s (λ n. record (s.config) { stderr_history = n })
  apply_option sys no_notify_on_success s =
      (record s { config = record (s.config) { notify_on_success = false } }, none)
  apply_option sys no_notify_on_failure s =
      (record s { config = record (s.config) { notify_on_failure = false } }, none)
  apply_option sys daemon s = (record s { config = record (s.config) { daemon = true } }, none)
  apply_option sys (memory_warn mem) s =
      set_parsed (memory_limit mem) bad_memory s (λ n. record (s.config) { memory_warn = n })
  apply_option sys (memory_kill mem) s =
      set_parsed (memory_limit mem) bad_memory s (λ n. record (s.config) { memory_kill = n })
  apply_option sys (kill_timeout t) s =
      set_parsed (sys.parse_duration t) bad_timeout s (λ d. record (s.config) { kill_timeout = d })
  apply_option sys (notify_timeout t) s =
      set_parsed (sys.parse_duration t) bad_timeout s
        (λ d. record (s.config) { notify_timeout = d })
  apply_option sys (creates path) s =
      (record s { config = record (s.config) { creates = s.config.creates ++ path ∷ [] } }, none)
  apply_option sys (host h) s = set_host (split_colons h) s
  apply_option sys insecure s = (record s { config = record (s.config) { use_tls = false } }, none)
  apply_option sys no_error_reports s = (record s { suppress_errors = true }, none)
  apply_option sys (shell sh) s =
      set_parsed (sys.look_path sh) no_path s (λ path. record (s.config) { shell = path })
  apply_option sys (log_file dir) s = (s, none)

  -- the loop of newConfig: an error does not end it
  unfoldable pub apply_options : System R → List ConfigOption → Setup R → Setup R × List ConfigError
  apply_options sys [] s = (s, [])
  apply_options sys (opt ∷ opts) s =
      let (s', e) = apply_option sys opt s in
      let (s'', es) = apply_options sys opts s' in
      elim e [ none ↦ (s'', es) | some x ↦ (s'', x ∷ es) ]

  -- the value that newConfig starts from
  unfoldable pub default_config : System R → Config R
  default_config sys = record {
    id = "";
    rules = [];
    rule_quantity = pos 0;
    rule_period = pos 0;
    hostname = elim sys.hostname [ none ↦ "" | some h ↦ h ];
    notify_timeout = pos 0;
    kill_timeout = pos 0;
    memory_warn = 0;
    memory_kill = 0;
    daemon = false;
    creates = [];
    stdout_history = pos 30;
    stderr_history = pos 30;
    notify_on_success = true;
    notify_on_failure = true;
    shell = "";
    host = "https://report.lmkwtf.com";
    port = "443";
    use_tls = true;
  }

  -- `findDefaultShell()`
  unfoldable pub shell_error : System R → List ConfigError
  shell_error sys = if str_eq sys.shell_variable "" then no_shell ∷ [] else []

  unfoldable pub id_error : Config R → List ConfigError
  id_error c = if str_eq c.id "" then no_id ∷ [] else []

  -- `newConfig(options...)`, with the flag `SuppressErrorReporting` as the options leave it
  unfoldable pub new_config :
      System R → Bool → List ConfigOption → Result (List ConfigError) (Config R) × Bool
  unfolding shell_error id_error
  new_config sys suppressed opts =
      let (s, errors) =
        apply_options sys opts
          (record { config = default_config sys; suppress_errors = suppressed }) in
      let c = record (s.config) { shell = sys.shell_variable } in
      let all = errors ++ (shell_error sys ++ id_error c) in
      elim all [ [] ↦ (ok c, s.suppress_errors) | e ∷ es ↦ (err (e ∷ es), s.suppress_errors) ]
