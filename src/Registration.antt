-- ===== src/Registration.antt =====
-- main.cpp: the classes that PHP sees, with their methods and the parameters that these take, and the
-- methods that read these parameters.
pub mod Arity
mod Tests
use azure_uamqp_php.Prelude.{
  ℕ, suc, ◌<◌, Bool, true, false, Option, none, some, List, [], ◌∷◌, Text, codes, length, get_elem?,
  leb, ◌==◌, if◌then◌else◌,
}
use mathlib.Core.Option as Options
use azure_uamqp_php.Prelude.Options.{◌>>=◌}
use azure_uamqp_php.Runtime.Library.{
  PhpRun, Call, close_call, consume_call, was_close_requested_call, set_callback_call, Uamqp,
}
use azure_uamqp_php.Runtime.State as Runtime
use azure_uamqp_php.Message.Library.{MessageApi, PhpApi}
use azure_uamqp_php.Message.State as Messages
use azure_uamqp_php.Message.Body.{construct, get_body, get_body_type}
use azure_uamqp_php.Message.Metadata.{
  get_message_id, get_delivery_count, get_all_metadata, get_one_metadata,
}
use azure_uamqp_php.Message.Setting.{set_message_id, set_metadata}
use azure_uamqp_php.Connection.Objects as Objects
use azure_uamqp_php.Connection.Methods.{method}
use azure_uamqp_php.Consumer.Dispatching.{do_work}
use azure_uamqp_php.Prelude.Int.{ℤ}
use azure_uamqp_php.Producer.Publishing.{publish}

-- `Php::Type`, as far as it is used, or a class.
pub data ParameterType : Type 0 where
  any string numeric bool callable : ParameterType
  instance_of : Text → ParameterType

-- `Php::ByVal`
pub record Parameter : Type 0 where
  pub name : Text
  pub type : ParameterType
  pub required : Bool

abbrev pub by_val : Text → ParameterType → Parameter
by_val name type = record { name = name; type = type; required = true }

abbrev pub optional : Text → ParameterType → Parameter
optional name type = record { name = name; type = type; required = false }

-- A method as it is registered: its name, its parameters and the code, which is given all that PHP
-- passes. The code is `none` where an argument is missing that some way through it reads. With all of
-- these there, it makes no difference when the code reads them: reading one changes nothing.
pub record Method (V R : Type 0) : Type 0 where
  pub name : Text
  pub parameters : List Parameter
  pub code : List V → Option R

-- The arguments that PHP-CPP insists on.
abbrev pub required_count : List Parameter → ℕ
required_count [] = 0
required_count (p ∷ ps) = if p.required then suc (required_count ps) else required_count ps

-- PHP-CPP makes no call with fewer arguments.
abbrev pub is_accepted : {V R : Type 0} → Method V R → List V → Bool
is_accepted m params = leb (required_count m.parameters) (length params)

module _ (api : MessageApi) (php : PhpApi api.Double) where
  -- What a method of Message returns; null for `void`.
  abbrev pub MessageRun : Type 0
  MessageRun = Messages.M api php.Value

  abbrev pub returns_null : Messages.M api (Unit {0}) → MessageRun
  returns_null m = Messages.◌>>=◌ m (λ _. Messages.pure php.null)

  abbrev pub returns_text : Messages.M api Text → MessageRun
  returns_text m = Messages.◌>>=◌ m (λ t. Messages.pure (php.from_text t))

  abbrev pub without_parameters : MessageRun → List php.Value → Option MessageRun
  without_parameters m params = some m

  unfoldable pub message_construct : List php.Value → Option MessageRun
  message_construct params = do
    body ← get_elem? params 0
    some (returns_null (construct api (php.string_value body)))

  -- The code copies the properties before it reads the value.
  unfoldable pub message_set_id : List php.Value → Option MessageRun
  message_set_id params = do
    value ← get_elem? params 0
    some (returns_null (set_message_id api php value))

  -- The code decodes the metadata before it reads the key. `params.size() < 2` is the case without a
  -- type.
  unfoldable pub message_get_one : Bool → List php.Value → Option MessageRun
  message_get_one annotation params = do
    key ← get_elem? params 0
    some (get_one_metadata api php annotation key (get_elem? params 1))

  -- The value is read once the type is known to be supported.
  unfoldable pub message_set_one : Bool → List php.Value → Option MessageRun
  message_set_one annotation params = do
    key ← get_elem? params 0
    type ← get_elem? params 1
    value ← get_elem? params 2
    some (returns_null (set_metadata api php annotation key type value))

  -- The class Azure\uAMQP\Message.
  unfoldable pub message_methods : List (Method php.Value MessageRun)
  unfolding message_construct message_set_id message_get_one message_set_one
  message_methods =
      record {
        name = codes "__construct";
        parameters = by_val (codes "body") ParameterType.string ∷ [];
        code = message_construct;
      }
      ∷ record {
        name = codes "getBody";
        parameters = [];
        code = without_parameters (returns_text (get_body api));
      }
      ∷ record {
        name = codes "getBodyType";
        parameters = [];
        code = without_parameters (returns_text (get_body_type api));
      }
      ∷ record {
        name = codes "getMessageId";
        parameters = [];
        code = without_parameters (get_message_id api php);
      }
      ∷ record {
        name = codes "getDeliveryCount";
        parameters = [];
        code = without_parameters (get_delivery_count api php);
      }
      ∷ record {
        name = codes "getMessageAnnotations";
        parameters = [];
        code = without_parameters (get_all_metadata api php true);
      }
      ∷ record {
        name = codes "setMessageId";
        parameters = by_val (codes "value") ParameterType.string ∷ [];
        code = message_set_id;
      }
      ∷ record {
        name = codes "getApplicationProperty";
        parameters =
            by_val (codes "key") ParameterType.string
            ∷ optional (codes "type") ParameterType.string
            ∷ [];
        code = message_get_one false;
      }
      ∷ record {
        name = codes "getApplicationProperties";
        parameters = [];
        code = without_parameters (get_all_metadata api php false);
      }
      ∷ record {
        name = codes "getMessageAnnotation";
        parameters =
            by_val (codes "key") ParameterType.string
            ∷ optional (codes "type") ParameterType.string
            ∷ [];
        code = message_get_one true;
      }
      ∷ record {
        name = codes "setApplicationProperty";
        parameters =
            by_val (codes "key") ParameterType.string
            ∷ by_val (codes "type") ParameterType.string
            ∷ by_val (codes "value") ParameterType.any
            ∷ [];
        code = message_set_one false;
      }
      ∷ record {
        name = codes "setMessageAnnotation";
        parameters =
            by_val (codes "key") ParameterType.string
            ∷ by_val (codes "type") ParameterType.string
            ∷ by_val (codes "value") ParameterType.any
            ∷ [];
        code = message_set_one true;
      }
      ∷ []

-- `debug` in `Connection::__construct`.
abbrev pub debug_argument : {V : Type 0} → (V → Bool) → List V → Bool
debug_argument bool_value params = elim (get_elem? params 5) [
  | none ↦ false
  | some v ↦ if length params == 6 then bool_value v else false
]

-- The arguments of `Connection::__construct`.
pub record Credentials : Type 0 where
  pub host : Text
  pub port : ℤ
  pub use_tls : Bool
  pub key_name : Text
  pub key : Text
  pub debug : Bool

-- What a call of PHP code does, and the rounds that `publish` may take, are given.
module _ {L D : Type 0} (php : PhpApi D) (runs : php.Value → PhpRun) (uamqp : Uamqp L)
    (call : Call → Runtime.M L Bool) (fuel : ℕ) where
  -- What a method of Connection returns; `false` for `void`.
  abbrev pub ConnectionRun : Type 0
  ConnectionRun = Runtime.M L Bool

  abbrev pub returns_false : Runtime.M L (Unit {0}) → ConnectionRun
  returns_false m = Runtime.◌>>◌ m (Runtime.pure false)

  unfoldable pub credentials : List php.Value → Option Credentials
  credentials params = do
    host ← get_elem? params 0
    port ← get_elem? params 1
    use_tls ← get_elem? params 2
    key_name ← get_elem? params 3
    key ← get_elem? params 4
    some (record {
      host = php.string_value host;
      port = php.numeric_value port;
      use_tls = php.bool_value use_tls;
      key_name = php.string_value key_name;
      key = php.string_value key;
      debug = debug_argument php.bool_value params;
    })

  unfoldable pub connection_construct : List php.Value → Option ConnectionRun
  unfolding credentials Objects.construct
  connection_construct params = do
    c ← credentials params
    some (returns_false (Runtime.change_connection (Objects.construct c.use_tls c.key_name c.key)))

  -- The code connects before it reads the arguments.
  unfoldable pub connection_publish : List php.Value → Option ConnectionRun
  connection_publish params = do
    _ ← get_elem? params 0
    _ ← get_elem? params 1
    some (returns_false (publish uamqp (do_work call uamqp) fuel))

  -- The code checks the credit and connects before it reads the others. `params.size() > 3` is the
  -- case with a credit.
  unfoldable pub connection_set_callback : List php.Value → Option ConnectionRun
  connection_set_callback params = do
    _ ← get_elem? params 0
    _ ← get_elem? params 1
    loop ← get_elem? params 2
    some (
        method uamqp call
          (set_callback_call (Options.map php.numeric_value (get_elem? params 3)) (runs loop)))

  -- The class Azure\uAMQP\Connection.
  unfoldable pub connection_methods : List (Method php.Value ConnectionRun)
  unfolding connection_construct connection_publish connection_set_callback
  connection_methods =
      record {
        name = codes "__construct";
        parameters =
            by_val (codes "host") ParameterType.string
            ∷ by_val (codes "port") ParameterType.numeric
            ∷ by_val (codes "useTls") ParameterType.bool
            ∷ by_val (codes "keyName") ParameterType.string
            ∷ by_val (codes "key") ParameterType.string
            ∷ optional (codes "debug") ParameterType.bool
            ∷ [];
        code = connection_construct;
      }
      ∷ record {
        name = codes "publish";
        parameters =
            by_val (codes "resourceName") ParameterType.string
            ∷ by_val (codes "message") (ParameterType.instance_of (codes "Azure\\uAMQP\\Message"))
            ∷ [];
        code = connection_publish;
      }
      ∷ record {
        name = codes "setCallback";
        parameters =
            by_val (codes "resourceName") ParameterType.string
            ∷ by_val (codes "callback") ParameterType.callable
            ∷ by_val (codes "loopFn") ParameterType.callable
            ∷ optional (codes "maxLinkCredit") ParameterType.numeric
            ∷ [];
        code = connection_set_callback;
      }
      ∷ record {
        name = codes "consume";
        parameters = [];
        code = λ _. some (method uamqp call consume_call);
      }
      ∷ record {
        name = codes "wasCloseRequested";
        parameters = [];
        code = λ _. some (method uamqp call was_close_requested_call);
      }
      ∷ record {
        name = codes "close";
        parameters = [];
        code = λ _. some (method uamqp call close_call);
      }
      ∷ []
