-- ===== src/Debugger/Accepted.antt =====
-- subscription_consumer.cpp, `parseOptions`: what accepted options are.
use azure_uamqp_php.Prelude.{
  ◌≤◌, ◌≡◌, ◌≢◌, List, [], ◌∷◌, Text, ok, arith, Ensures, value, thrown, Ensures-bind, ensures-ok,
  >>=-eq-ok,
}
use azure_uamqp_php.Debugger.Percent.{decode_percent}
use azure_uamqp_php.Debugger.Number.{parse_positive, parse_positive_bounds}
use azure_uamqp_php.Debugger.Endpoint.{Endpoint, parse_endpoint, cut, parse_user_info}
use azure_uamqp_php.Debugger.Options.{
  Settings, Options, Environment, Argument, sets_endpoint, sets_user, sets_password, sets_count,
  sets_timeout, help, unknown, initial, classify, set_option, parse_arguments, required_value,
  finish_options, parse_options,
}

-- What the receive loop may rely on.
pub record IsComplete (o : Options) : Type 0 where
  pub has_user : o.user ≢ []
  pub has_password : o.password ≢ []
  pub count_bounds : (1 ≤ o.count) × (o.count ≤ 86400)
  pub timeout_bounds : (1 ≤ o.timeout_seconds) × (o.timeout_seconds ≤ 86400)
  pub port_bounds : (1 ≤ o.endpoint.port) × (o.endpoint.port ≤ 86400)

-- The count and the timeout, while the arguments are read.
record IsRunning (s : Settings) : Type 0 where
  count_bounds : (1 ≤ s.count) × (s.count ≤ 86400)
  timeout_bounds : (1 ≤ s.timeout_seconds) × (s.timeout_seconds ≤ 86400)

set_option-IsRunning :
    (a : Argument) (name text : Text) (s : Settings)
    → IsRunning s
    → Ensures IsRunning (set_option a name text s)
unfolding set_option
set_option-IsRunning sets_endpoint name text s r = value _ (omega arith)
set_option-IsRunning sets_user name text s r = value _ (omega arith)
set_option-IsRunning sets_password name text s r = value _ (omega arith)
set_option-IsRunning sets_count name text s r =
    Ensures-bind (parse_positive text)
      λ n e. value (record s { count = n }) (omega (arith, parse_positive_bounds text n e))
set_option-IsRunning sets_timeout name text s r =
    Ensures-bind (parse_positive text) λ n e.
      value (record s { timeout_seconds = n }) (omega (arith, parse_positive_bounds text n e))
set_option-IsRunning help name text s r = thrown _
set_option-IsRunning unknown name text s r = thrown _

parse_arguments-IsRunning :
    (arguments : List Text) (s : Settings)
    → IsRunning s
    → Ensures IsRunning (parse_arguments arguments s)
unfolding parse_arguments
parse_arguments-IsRunning [] s r = value s r
parse_arguments-IsRunning (name ∷ []) s r = thrown _
parse_arguments-IsRunning (name ∷ text ∷ rest) s r =
    Ensures-bind (set_option (classify name) name text s) λ s' e.
      parse_arguments-IsRunning rest s'
        (ensures-ok (set_option-IsRunning (classify name) name text s r) e)

parse_endpoint-port :
    (text : Text)
    → Ensures (λ (e : Endpoint). (1 ≤ e.port) × (e.port ≤ 86400)) (parse_endpoint text)
unfolding parse_endpoint
parse_endpoint-port text = Ensures-bind (cut _ _ _) λ (before, resource) _.
    Ensures-bind (parse_user_info before) λ (user, password, host_port) _.
      Ensures-bind (cut _ host_port _) λ (host, digits) _.
        Ensures-bind (parse_positive digits) λ port e. value _ (parse_positive_bounds digits port e)

required_value_some : (option text t : Text) → required_value option text ≡ ok t → text ≢ []
unfolding required_value
required_value_some option [] t e = cc
required_value_some option (c ∷ text) t e = λ p. cc

finish_options-IsComplete : (s : Settings) → IsRunning s → Ensures IsComplete (finish_options s)
unfolding finish_options
finish_options-IsComplete s r = Ensures-bind (required_value _ s.endpoint) λ text _.
    Ensures-bind (parse_endpoint text) λ endpoint found. Ensures-bind (decode_percent _) λ user _.
      Ensures-bind (decode_percent _) λ password _.
        Ensures-bind (required_value _ user) λ required_user e1.
          Ensures-bind (required_value _ password) λ required_password e2. value _ (record {
            has_user = required_value_some _ user required_user e1;
            has_password = required_value_some _ password required_password e2;
            count_bounds = r.count_bounds;
            timeout_bounds = r.timeout_bounds;
            port_bounds = ensures-ok (parse_endpoint-port text) found;
          })

-- Options that are accepted have a user and a password, and their count, their timeout and the
-- endpoint's port lie between 1 and 86400.
pub parse_options-IsComplete :
    (environment : Environment) (arguments : List Text) (o : Options)
    → parse_options environment arguments ≡ ok o
    → IsComplete o
unfolding parse_options initial
parse_options-IsComplete environment arguments o e =
    let (s, parsed, finished) = >>=-eq-ok (parse_arguments arguments (initial environment)) _ e in
    ensures-ok
      (finish_options-IsComplete s (
        ensures-ok (parse_arguments-IsRunning arguments (initial environment) (omega arith))
          parsed))
      finished
