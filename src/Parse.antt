-- ===== src/Parse.antt =====
-- pkg/monny/parse.go: the options of the command line and of a configuration file. The packages
-- pflag and yaml and the reading of files are parameters.
pub mod Flags
pub mod Rates
pub mod Files
pub mod Repeats
mod Tests
use Prim.Native.Char.{Char, code}
use Prim.Native.String.{String}
use monny.Base.{
  ◌==◌, Bool, true, false, not, ◌&&◌, List, [], ◌∷◌, ◌++◌, Option, none, some, Result, ok, err,
  ◌>>=◌, str_eq, if◌then◌else◌,
}
use monny.Base.Int.{ℤ}
use monny.Base.Strconv.{itoa}
use monny.Config.Options.{
  ConfigOption, id, rule, json_rule, stdout_history, stderr_history, no_notify_on_success,
  no_notify_on_failure, daemon, memory_warn, memory_kill, kill_timeout, notify_timeout, creates,
  host, insecure, no_error_reports, shell,
}

pub data ParseError : Type 0 where
  bad_flags no_file bad_yaml : ParseError
  unknown_option bad_json_rule bad_list bad_type : String → ParseError

-- What the type switch tells apart in a value of the decoded map; a null is none of the types.
pub data YamlValue : Type 0 where
  text : String → YamlValue
  number : ℤ → YamlValue
  boolean : Bool → YamlValue
  other_value null : YamlValue

-- `listFieldsYAML`
pub record ListFields : Type 0 where
  pub rules : List String
  pub json_rules : List String
  pub creates : List String

-- What `ParseAll` makes of the arguments: the flags with their values in order, up to an argument
-- that it refuses, if there is one, and the other arguments.
pub record ParsedFlags : Type 0 where
  pub flags : List (String × String)
  pub refused : Bool
  pub args : List String

-- `decode_map` gives the entries of the map in the order in which the loop takes them, which Go
-- leaves open.
pub record Readers : Type 0 where
  pub parse_all : List String → ParsedFlags
  pub read_file : String → Option String
  pub decode_map : String → Option (List (String × YamlValue))
  pub decode_lists : String → Option ListFields

abbrev in_front : Char → Option (String × String) → Option (String × String)
in_front c none = none
in_front c (some (field, regex)) = some (String.◌∷◌ c field, regex)

-- `strings.SplitAfterN(value, ":", 2)`, where it has two parts: the one in front of the colon,
-- without it, and the one behind
unfoldable pub split_rule : String → Option (String × String)
split_rule String.[] = none
split_rule (String.◌∷◌ c s) =
    let rest = in_front c (split_rule s) in if code c == b':' then some (String.[], s) else rest

abbrev is_empty {ℓ} : {A : Type ℓ} → List A → Bool
is_empty [] = true
is_empty (x ∷ xs) = false

abbrev pub json_rule_of : String → Option (String × String) → Result ParseError ConfigOption
json_rule_of value none = err (bad_json_rule value)
json_rule_of value (some (field, regex)) = ok (json_rule field regex)

-- the first of the options whose name is the given one
abbrev pub pick {ℓ} : {A : Type ℓ} → String → List (String × A) → A → A
pick name [] default = default
pick name ((key, a) ∷ cases) default = if str_eq name key then a else pick name cases default

-- the switch of handleOption
abbrev pub option_cases : String → List (String × Result ParseError ConfigOption)
option_cases value =
    ("id", ok (id value))
    ∷ ("rule", ok (rule value))
    ∷ ("rule-json", json_rule_of value (split_rule value))
    ∷ ("stdout-history", ok (stdout_history value))
    ∷ ("stderr-history", ok (stderr_history value))
    ∷ ("no-notify-on-success", ok no_notify_on_success)
    ∷ ("no-notify-on-failure", ok no_notify_on_failure)
    ∷ ("daemon", ok daemon)
    ∷ ("memory-warn", ok (memory_warn value))
    ∷ ("memory-kill", ok (memory_kill value))
    ∷ ("timeout-warn", ok (notify_timeout value))
    ∷ ("timeout-kill", ok (kill_timeout value))
    ∷ ("creates", ok (creates value))
    ∷ ("host", ok (host value))
    ∷ ("insecure", ok insecure)
    ∷ ("no-error-reports", ok no_error_reports)
    ∷ ("shell", ok (shell value))
    ∷ []

-- `handleOption(name, value)`
unfoldable pub handle_option : String → String → Result ParseError ConfigOption
unfolding split_rule
handle_option name value = pick name (option_cases value) (err (unknown_option name))

-- the flags that `createFlagSet` defines
abbrev pub flag_names : List String
flag_names =
    "id" ∷ "config" ∷ "rule" ∷ "rule-json" ∷ "stdout-history" ∷ "stderr-history"
    ∷ "no-notify-on-success" ∷ "no-notify-on-failure" ∷ "daemon" ∷ "memory-warn" ∷ "memory-kill"
    ∷ "timeout-warn" ∷ "timeout-kill" ∷ "creates" ∷ "host" ∷ "insecure" ∷ "no-error-reports"
    ∷ "shell" ∷ []

-- a loop that handles each value of a list under one name
unfoldable pub handle_all : String → List String → Result ParseError (List ConfigOption)
unfolding handle_option
handle_all name [] = ok []
handle_all name (value ∷ values) =
    handle_option name value >>= λ opt. handle_all name values >>= λ opts. ok (opt ∷ opts)

abbrev pub has_lists : ListFields → Bool
has_lists alt = not (is_empty alt.rules && is_empty alt.json_rules && is_empty alt.creates)

abbrev pub all_lists : ListFields → Result ParseError (List ConfigOption)
unfolding handle_all
all_lists alt = handle_all "rule" alt.rules >>= λ rs.
    handle_all "rule-json" alt.json_rules >>= λ js.
    handle_all "creates" alt.creates >>= λ cs. ok (rs ++ (js ++ cs))

-- the case of a list: all lists of the file, whichever of them the key names
unfoldable pub list_options : String → Option ListFields → Result ParseError (List ConfigOption)
unfolding handle_all
list_options key none = err (bad_list key)
list_options key (some alt) = if has_lists alt then all_lists alt else err (unknown_option key)

-- the body of the loop of `parseFromFile`; `lists` is the second decoding of the file
unfoldable pub entry_options :
    Option ListFields → String → YamlValue → Result ParseError (List ConfigOption)
unfolding handle_option list_options
entry_options lists key (text value) = handle_option key value >>= λ opt. ok (opt ∷ [])
entry_options lists key (number n) = handle_option key (itoa n) >>= λ opt. ok (opt ∷ [])
entry_options lists key (boolean b) = handle_option key "" >>= λ opt. ok (opt ∷ [])
entry_options lists key other_value = list_options key lists
entry_options lists key null = err (bad_type key)

-- the loop
unfoldable pub entries_options :
    Option ListFields → List (String × YamlValue) → Result ParseError (List ConfigOption)
unfolding entry_options
entries_options lists [] = ok []
entries_options lists ((key, value) ∷ entries) = entry_options lists key value >>= λ opts.
    entries_options lists entries >>= λ more. ok (opts ++ more)

-- what both decodings of the file give, none where its text is no map
abbrev pub decoded_options :
    Option ListFields → Option (List (String × YamlValue)) → Result ParseError (List ConfigOption)
unfolding entries_options
decoded_options lists none = err bad_yaml
decoded_options lists (some entries) = entries_options lists entries

abbrev pub content_options : Readers → Option String → Result ParseError (List ConfigOption)
unfolding entries_options
content_options r none = err no_file
content_options r (some content) = decoded_options (r.decode_lists content) (r.decode_map content)

-- `parseFromFile(fpath)`; the options beside an error are dropped by its only caller
unfoldable pub parse_from_file : Readers → String → Result ParseError (List ConfigOption)
unfolding entries_options
parse_from_file r path = content_options r (r.read_file path)

-- the options that `parseFlag` appends for a flag
unfoldable pub flag_options : Readers → String → String → Result ParseError (List ConfigOption)
unfolding parse_from_file handle_option
flag_options r name value =
    if str_eq name "config"
    then parse_from_file r value
    else handle_option name value >>= λ opt. ok (opt ∷ [])

-- the options of a flag, with those of the flags behind it, unless it has an error
abbrev pub options_so_far :
    Result ParseError (List ConfigOption)
    → List ConfigOption × Option ParseError
    → List ConfigOption × Option ParseError
options_so_far (err x) (more, e) = ([], some x)
options_so_far (ok opts) (more, e) = (opts ++ more, e)

-- The calls that `ParseAll` makes: an error ends them. The options so far stand beside it.
unfoldable pub parse_flags :
    Readers → List (String × String) → Bool → List ConfigOption × Option ParseError
unfolding flag_options
parse_flags r [] refused = ([], if refused then some bad_flags else none)
parse_flags r ((name, value) ∷ flags) refused =
    options_so_far (flag_options r name value) (parse_flags r flags refused)

-- `parse(args, pf)`
unfoldable pub parse : Readers → List String → List String × List ConfigOption × Option ParseError
unfolding parse_flags
parse r args =
    let parsed = r.parse_all args in
    let (opts, e) = parse_flags r parsed.flags parsed.refused in (parsed.args, opts, e)
