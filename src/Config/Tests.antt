-- ===== src/Config/Tests.antt =====
-- The theorems about the options and the configuration (pkg/monny/config.go) at concrete ones.
use Prim.Native.String.{String}
use monny.Base.{
  ◌-◌, ◌*◌, ◌^◌, ◌≡◌, refl, false, List, [], ◌∷◌, none, some, err, str_eq, if◌then◌else◌, arith,
}
use monny.Base.Int.{pos, negsuc}
use monny.Base.Strconv.{atoi}
use monny.Config.Record.{Config}
use monny.Config.Options.{
  ConfigOption, id, rule, json_rule, creates, shell, host, stdout_history, bad_regex, bad_host,
  no_id, System, new_config, memory_limit, apply_option, apply_options, default_config, shell_error,
}
use monny.Config.Accepted.{
  last_id, refusals, all_creates, all_rules, reported, unless, new_config-reported,
}
use monny.Config.Limits.{giga, with_unit, memory_limit_bounds}

-- expressions that compile to themselves, but for one; durations all of 5
abbrev host_system : System String
host_system = record {
  compile = λ text. if str_eq text "(" then none else some text;
  parse_duration = λ text. some (pos 5);
  look_path = λ name. some name;
  hostname = some "tower";
  shell_variable = "/bin/bash";
}

abbrev asked : List ConfigOption
asked =
    id "first"
    ∷ rule "panic"
    ∷ shell "/bin/zsh"
    ∷ creates "a.tar"
    ∷ json_rule "level" "error"
    ∷ creates "b.tar"
    ∷ id "backup"
    ∷ []

abbrev faulty : List ConfigOption
faulty = rule "(" ∷ host "localhost" ∷ stdout_history "50" ∷ []

new_config-reported_example :
    (c : Config String) × ((new_config host_system false asked).0
      ≡ unless (reported host_system asked) c)
    × (c.id ≡ last_id "" asked)
    × (c.creates ≡ all_creates asked)
    × (c.rules ≡ all_rules host_system asked)
    × (c.shell ≡ host_system.shell_variable)
new_config-reported_example = new_config-reported host_system false asked

asked_accepted : reported host_system asked ≡ []
unfolding refusals apply_option shell_error last_id
asked_accepted = refl

faulty_refused : (new_config host_system false faulty).0 ≡ err (bad_regex ∷ bad_host ∷ no_id ∷ [])
unfolding new_config apply_option apply_options atoi default_config
faulty_refused = refl

memory_limit_bounds_example :
    (memory_limit (with_unit (pos 2) giga) ≡ some (2 * 1_000_000))
    × (memory_limit (with_unit (negsuc 2) giga) ≡ some (2 ^ 64 - 3 * 1_000_000))
memory_limit_bounds_example = memory_limit_bounds 2 giga (omega arith)
