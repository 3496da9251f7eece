-- ===== src/Debugger/Endpoint.antt =====
-- subscription_consumer.cpp, `Endpoint` and `parseEndpoint`.
use mathlib.Core.Option
use azure_uamqp_php.Prelude.{
  ℕ, suc, ◌||◌, Option, none, some, [], ◌∷◌, Text, codes, length, take, drop, text_eq, ◌==◌,
  if◌then◌else◌, Result, ok, err, ◌>>=◌,
}
use azure_uamqp_php.Debugger.Percent.{
  CommandError, no_resource, bad_credentials, no_port, decode_percent,
}
use azure_uamqp_php.Debugger.Number.{parse_positive}

pub record Endpoint : Type 0 where
  pub host : Text
  pub resource : Text
  pub user : Text
  pub password : Text
  pub port : ℕ

-- `value.find(c)`; `none` is `npos`.
unfoldable pub find : ℕ → Text → Option ℕ
find c [] = none
find c (x ∷ t) = if x == c then some 0 else Option.map suc (find c t)

-- `value.rfind(c)`
unfoldable pub rfind : ℕ → Text → Option ℕ
rfind c [] = none
rfind c (x ∷ t) = elim (rfind c t) [
  | some i ↦ some (suc i)
  | none ↦ if x == c then some 0 else none
]

abbrev scheme : Text
scheme = codes "amqps://"

-- `compare(0, 8, scheme) == 0` compares at most eight bytes.
unfoldable pub strip_scheme : Text → Text
strip_scheme value =
    if text_eq (take (length scheme) value) scheme then drop (length scheme) value else value

unfoldable pub strip_query : Text → Text
strip_query value = elim (find b'?' value) [ none ↦ value | some position ↦ take position value ]

-- `position == npos || position == 0 || position == value.size() - 1` throws; otherwise the text
-- is cut there.
unfoldable pub cut : CommandError → Text → Option ℕ → Result CommandError (Text × Text)
cut e value none = err e
cut e value (some position) =
    if position == 0 || suc position == length value
    then err e
    else ok (take position value, drop (suc position) value)

-- The user and password in front of an `@`, and the host and port.
unfoldable pub parse_user_info : Text → Result CommandError (Text × Text × Text)
parse_user_info host_port = elim (rfind b'@' host_port) [
  | none ↦ ok ([], [], host_port)
  | some at ↦ do
    let user_info = take at host_port
    (name, secret) ← cut bad_credentials user_info (find b':' user_info)
    user ← decode_percent name
    password ← decode_percent secret
    ok (user, password, drop (suc at) host_port)
]

unfoldable pub parse_endpoint : Text → Result CommandError Endpoint
parse_endpoint text = do
  let value = strip_query (strip_scheme text)
  (before, resource) ← cut no_resource value (find b'/' value)
  (user, password, host_port) ← parse_user_info before
  (host, digits) ← cut no_port host_port (rfind b':' host_port)
  port ← parse_positive digits
  ok (record { host = host; resource = resource; user = user; password = password; port = port })
