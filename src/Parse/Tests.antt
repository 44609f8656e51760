-- ===== src/Parse/Tests.antt =====
-- The theorems about the options of the command line and of a file (pkg/monny/parse.go) at
-- concrete ones.
use Prim.Native.String.{String}
use monny.Base.{
  ℕ, ◌≡◌, refl, false, List, [], ◌∷◌, ◌++◌, map, length, Option, none, some, ok, arith,
}
use monny.Base.Int.{pos, negsuc}
use monny.Base.Strconv.{atoi, itoa}
use monny.Config.{Config}
use monny.Config.Options.{
  ConfigOption, rule, creates, System, Setup, default_config, apply_option, apply_options,
  new_config,
}
use monny.Config.Accepted.{all_creates}
use monny.Parse.{Readers, YamlValue, number, ListFields, parse_from_file, parse}
use monny.Parse.Files.{parse_from_file-apply_options}
use monny.Parse.Repeats.{listed, repeated, parse_from_file-repeated}
use monny.Parse.Rates.{parse-rates}

abbrev quiet_system : System ℕ
quiet_system = record {
  compile = λ text. some 0;
  parse_duration = λ text. none;
  look_path = λ name. none;
  hostname = none;
  shell_variable = "/bin/sh";
}

-- a file of two numbers, read back by a command line that names it and an id
abbrev histories : List (String × YamlValue)
histories = ("stdout-history", number (pos 120)) ∷ ("stderr-history", number (negsuc 4)) ∷ []

abbrev readers_of : List (String × YamlValue) → Option ListFields → Readers
readers_of entries lists = record {
  parse_all = λ args. record {
    flags = ("config", "monny.yaml") ∷ ("id", "backup") ∷ [];
    refused = false;
    args = args;
  };
  read_file = λ path. some path;
  decode_map = λ content. some entries;
  decode_lists = λ content. lists;
}

abbrev fresh : Setup ℕ
fresh = record { config = default_config quiet_system; suppress_errors = false }

parse_from_file-apply_options_example :
    (opts : List ConfigOption) × (parse_from_file (readers_of histories none) "monny.yaml"
      ≡ ok opts)
    × (apply_options quiet_system opts fresh ≡ (
      record fresh {
        config = record (fresh.config) { stdout_history = pos 120; stderr_history = negsuc 4 };
      },
      [],
    ))
parse_from_file-apply_options_example =
    parse_from_file-apply_options (readers_of histories none) quiet_system fresh "monny.yaml"
      (pos 120) (negsuc 4) refl refl (omega arith) (omega arith)

abbrev two_lists : ListFields
two_lists = record { rules = "panic" ∷ []; json_rules = []; creates = "a.tar" ∷ [] }

abbrev two_keys : List String
two_keys = "rule" ∷ "creates" ∷ []

keys_repeat :
    (opts : List ConfigOption) × (parse_from_file
        (readers_of (listed two_keys) (some two_lists))
        "monny.yaml"
      ≡ ok opts)
    × (opts
        ≡ repeated (length two_keys) (map rule two_lists.rules ++ map creates two_lists.creates))
    × (all_creates opts ≡ repeated (length two_keys) two_lists.creates)
keys_repeat =
    parse_from_file-repeated (readers_of (listed two_keys) (some two_lists)) "monny.yaml" two_keys
      two_lists refl refl refl refl refl

two_files : repeated 2 two_lists.creates ≡ "a.tar" ∷ "a.tar" ∷ []
unfolding repeated
two_files = refl

abbrev read_back : Config ℕ
read_back = record (default_config quiet_system) {
  id = "backup";
  shell = "/bin/sh";
  stdout_history = pos 120;
  stderr_history = negsuc 4;
}

is_made : (new_config quiet_system false (parse (readers_of histories none) []).1).0 ≡ ok read_back
unfolding new_config parse apply_options default_config apply_option atoi itoa
is_made = refl

parse-rates_example : (read_back.rule_quantity ≡ pos 0) × (read_back.rule_period ≡ pos 0)
parse-rates_example = parse-rates (readers_of histories none) quiet_system false [] is_made
