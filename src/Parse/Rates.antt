-- ===== src/Parse/Rates.antt =====
-- The rate of rule matches that asks for a report (pkg/monny/config.go, RuleQuantity and
-- RulePeriod) under the options that pkg/monny/parse.go makes.
mod Options
use Options.{LeavesRate, AllLeaveRate, parse_flags-AllLeaveRate}
use Prim.Native.String.{String}
use monny.Base.{
  ◌≡◌, refl, Bool, List, [], ◌∷◌, ◌++◌, Option, none, some, Result, ok, err, ◌>>=◌, str_eq, if_both,
  arith,
}
use monny.Base.Int.{pos}
use monny.Base.Strconv.{itoa}
use monny.Config.{Config}
use monny.Config.Options.{
  ConfigOption, rule_quantity, rule_period, System, Setup, apply_option, apply_options,
  default_config, new_config,
}
use monny.Parse.{
  has_lists, all_lists, options_so_far, decoded_options, content_options, split_rule, YamlValue,
  text, number, boolean, other_value, null, ListFields, Readers, ParseError, json_rule_of, pick,
  option_cases, has_lists, handle_option, handle_all, list_options, entry_options, entries_options,
  parse_from_file, flag_options, parse_flags, parse, unknown_option,
}

module _ {ℓ} {R : Type ℓ} where
  abbrev NoRate : Config R → Type 0
  NoRate c = (c.rule_quantity ≡ pos 0) × (c.rule_period ≡ pos 0)

  apply_option-NoRate :
      (sys : System R) (opt : ConfigOption) (s : Setup R)
      → LeavesRate opt
      → NoRate s.config
      → NoRate (apply_option sys opt s).0.config
  unfolding apply_option
  apply_option-NoRate sys (rule_quantity q) s p h = absurd p
  apply_option-NoRate sys (rule_period q) s p h = absurd p
  apply_option-NoRate sys _ s p h = ground arith

  apply_options-NoRate :
      (sys : System R) (opts : List ConfigOption) (s : Setup R)
      → AllLeaveRate opts
      → NoRate s.config
      → NoRate (apply_options sys opts s).0.config
  unfolding apply_options
  apply_options-NoRate sys [] s p h = h
  apply_options-NoRate sys (opt ∷ opts) s p h = ground (
    arith,
    apply_options-NoRate sys opts (apply_option sys opt s).0 p.1
        (apply_option-NoRate sys opt s p.0 h),
  )

  new_config-NoRate :
      (sys : System R) (suppressed : Bool) (opts : List ConfigOption) {c : Config R}
      → AllLeaveRate opts
      → (new_config sys suppressed opts).0 ≡ ok c
      → NoRate c
  unfolding new_config default_config
  new_config-NoRate sys suppressed opts p made = ground (
    arith,
    apply_options-NoRate sys opts
        (record { config = default_config sys; suppress_errors = suppressed }) p (refl, refl),
  )

  -- Whatever the command line and the configuration file say, a configuration that `newConfig`
  -- makes of the options that `parse` returns has no rate of rule matches that asks for a report:
  -- both its quantity and its period are zero.
  pub parse-rates :
      (r : Readers) (sys : System R) (suppressed : Bool) (args : List String) {c : Config R}
      → (new_config sys suppressed (parse r args).1).0 ≡ ok c
      → NoRate c
  unfolding parse
  parse-rates r sys suppressed args made =
      let parsed = r.parse_all args in
      new_config-NoRate sys suppressed (parse r args).1
        (parse_flags-AllLeaveRate r parsed.flags parsed.refused) made
