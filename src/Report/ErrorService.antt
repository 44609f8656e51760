-- ===== src/Report/ErrorService.antt =====
-- pkg/monny/error.go: the service for unexpected errors. Its transport, the package rollbar, is
-- outside.
use monny.Base.{String, Bool, List, [], str_eq, if◌then◌else◌}

-- the environment that `init` sets, by the variable `environment`
abbrev pub rollbar_environment : String → String
rollbar_environment env = if str_eq env "development" then "development" else "production"

-- `ReportError(err)`: the errors that go to the service, by the flag `SuppressErrorReporting`
unfoldable pub sent_errors : Bool → List String → List String
sent_errors suppressed errors = if suppressed then [] else errors
