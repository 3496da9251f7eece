-- ===== src/Debugger/Options.antt =====
-- subscription_consumer.cpp, `Options`, `requiredValue` and `parseOptions`.
use azure_uamqp_php.Prelude.{
  ℕ, Option, none, some, List, [], ◌∷◌, Text, codes, is_empty, text_eq, if◌then◌else◌, ◌||◌, Result,
  ok, err, ◌>>=◌,
}
use azure_uamqp_php.Debugger.Percent.{
  CommandError, no_value, is_required, unknown_option, usage_exit, decode_percent,
}
use azure_uamqp_php.Debugger.Number.{parse_positive}
use azure_uamqp_php.Debugger.Endpoint.{Endpoint, parse_endpoint}

-- What the loop over the arguments fills in; `endpoint` is still text.
pub record Settings : Type 0 where
  pub endpoint : Text
  pub user : Text
  pub password : Text
  pub count : ℕ
  pub timeout_seconds : ℕ

pub record Options : Type 0 where
  pub endpoint : Endpoint
  pub user : Text
  pub password : Text
  pub count : ℕ
  pub timeout_seconds : ℕ

-- `getenv`, for the three variables.
pub record Environment : Type 0 where
  pub endpoint : Option Text
  pub user : Option Text
  pub password : Option Text

abbrev pub or_empty : Option Text → Text
or_empty none = []
or_empty (some t) = t

unfoldable pub initial : Environment → Settings
initial e = record {
  endpoint = or_empty e.endpoint;
  user = or_empty e.user;
  password = or_empty e.password;
  count = 1;
  timeout_seconds = 60;
}

-- How the chain of tests takes an argument.
pub data Argument : Type 0 where
  sets_endpoint sets_user sets_password sets_count sets_timeout help unknown : Argument

unfoldable pub classify : Text → Argument
classify argument =
    if text_eq argument (codes "--endpoint")
    then sets_endpoint
    else if text_eq argument (codes "--user")
    then sets_user
    else if text_eq argument (codes "--password")
    then sets_password
    else if text_eq argument (codes "--count")
    then sets_count
    else if text_eq argument (codes "--timeout")
    then sets_timeout
    else if text_eq argument (codes "--help") || text_eq argument (codes "-h")
    then help
    else unknown

-- The settings after an option and its value.
unfoldable pub set_option : Argument → Text → Text → Settings → Result CommandError Settings
set_option sets_endpoint name value s = ok (record s { endpoint = value })
set_option sets_user name value s = ok (record s { user = value })
set_option sets_password name value s = ok (record s { password = value })
set_option sets_count name value s = do n ← parse_positive value; ok (record s { count = n })
set_option sets_timeout name value s = do
  n ← parse_positive value
  ok (record s { timeout_seconds = n })
set_option help name value s = err usage_exit
set_option unknown name value s = err (unknown_option name)

-- An option that is the last argument has no value.
unfoldable pub last_option : Argument → Text → CommandError
last_option help name = usage_exit
last_option unknown name = unknown_option name
last_option _ name = no_value name

unfoldable pub parse_arguments : List Text → Settings → Result CommandError Settings
parse_arguments [] s = ok s
parse_arguments (name ∷ []) s = err (last_option (classify name) name)
parse_arguments (name ∷ value ∷ rest) s = do
  s' ← set_option (classify name) name value s
  parse_arguments rest s'

unfoldable pub required_value : Text → Text → Result CommandError Text
required_value option value = if is_empty value then err (is_required option) else ok value

-- What follows the loop.
unfoldable pub finish_options : Settings → Result CommandError Options
finish_options s = do
  text ← required_value (codes "--endpoint/UAMQP_ENDPOINT") s.endpoint
  endpoint ← parse_endpoint text
  user ← decode_percent (if is_empty s.user then endpoint.user else s.user)
  password ← decode_percent (if is_empty s.password then endpoint.password else s.password)
  required_user ← required_value (codes "--user/UAMQP_USER") user
  required_password ← required_value (codes "--password/UAMQP_PASSWORD") password
  ok (record {
    endpoint = endpoint;
    user = user;
    password = password;
    count = s.count;
    timeout_seconds = s.timeout_seconds;
  })

-- `parseOptions`, for the arguments behind the program's name.
unfoldable pub parse_options : Environment → List Text → Result CommandError Options
parse_options environment arguments = do
  s ← parse_arguments arguments (initial environment)
  finish_options s
