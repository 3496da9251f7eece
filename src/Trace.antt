-- ===== src/Trace.antt =====
-- Consumer.cpp, the trace records of the receiver: what is written to the log about its link and its
-- deliveries.
pub mod Json
pub mod Records
pub mod Deliveries
mod Tests
use azure_uamqp_php.Prelude.{
  ℕ, Bool, true, false, not, Option, none, some, ◌++◌, Text, codes, if◌then◌else◌, Result, ok, err,
}
use azure_uamqp_php.Prelude.Decimal.{decimal}
use azure_uamqp_php.Quote.{quote, trace}
use azure_uamqp_php.Runtime.Library.{Thrown}
use azure_uamqp_php.Message.Library.{MessageApi, PhpApi}
use azure_uamqp_php.Message.State.{Run, M, ◌>>=◌, pure}
use azure_uamqp_php.Message.Metadata.{get_message_id, get_all_metadata, get_delivery_count}

-- What a record is made of besides its event: the connection's flag and name, the clock and the
-- process, and the consumer's resource.
pub record Context : Type 0 where
  pub debug : Bool
  pub timestamp : ℕ
  pub pid : ℕ
  pub connection_id : Text
  pub resource_name : Text

-- `session->getConnection()->trace`
unfoldable pub write : Context → Text → Text → Option Text
unfolding trace
write c event fields = trace c.debug c.timestamp c.pid c.connection_id event fields

abbrev pub bool_text : Bool → Text
bool_text b = if b then codes "true" else codes "false"

-- The fields of `receiver-created`.
unfoldable pub created_fields : Text → ℕ → Bool → Text
created_fields resource_name credit_remaining finite_batch =
    codes "\"resource\":"
    ++ (quote resource_name
        ++ (codes ",\"credit\":"
            ++ (decimal credit_remaining ++ (codes ",\"finite\":" ++ bool_text finite_batch))))

-- The fields of `delivery` where the metadata is not read.
unfoldable pub outcome_fields : Text → ℕ → Text → Text
outcome_fields resource_name delivery_id outcome =
    codes "\"resource\":"
    ++ (quote resource_name
        ++ (codes ",\"deliveryId\":"
            ++ (decimal delivery_id ++ (codes ",\"dispositionAttempt\":" ++ quote outcome))))

abbrev pub text_or_null : Option Text → Text
text_or_null none = codes "null"
text_or_null (some id) = quote id

-- The fields of `delivery`.
unfoldable pub delivery_fields : Text → ℕ → Option Text → Text → Text → Text → Text → Text
delivery_fields resource_name delivery_id id count sequence_number locked_until outcome =
    codes "\"resource\":"
    ++ (quote resource_name
        ++ (codes ",\"deliveryId\":"
            ++ (decimal delivery_id
                ++ (codes ",\"messageId\":"
                    ++ (text_or_null id
                        ++ (codes ",\"deliveryCount\":"
                            ++ (count
                                ++ (codes ",\"sequenceNumber\":"
                                    ++ (quote sequence_number
                                        ++ (codes ",\"lockedUntil\":"
                                            ++ (quote locked_until
                                                ++ (codes ",\"dispositionAttempt\":"
                                                    ++ quote outcome))))))))))))

-- The fields of `metadata-unavailable`.
unfoldable pub unavailable_fields : Text → Text
unavailable_fields outcome = codes "\"dispositionAttempt\":" ++ quote outcome

-- The fields of `receiver-drain`.
unfoldable pub drain_fields : Bool → Text
drain_fields drained = codes "\"complete\":" ++ bool_text drained

-- The fields of `receiver-closed`.
unfoldable pub closed_fields : Text → Bool → Text → Text
closed_fields stop_reason detach_received exception_message =
    codes "\"reason\":"
    ++ (quote stop_reason
        ++ (codes ",\"peerDetach\":"
            ++ (bool_text detach_received ++ (codes ",\"error\":" ++ quote exception_message))))

-- `deliveryId`, which stays 0 where `messagereceiver_get_received_message_id` fails.
abbrev pub or_zero : Option ℕ → ℕ
or_zero none = 0
or_zero (some id) = id

-- `traceDeliveryOutcome`
unfoldable pub trace_delivery_outcome : Context → Option ℕ → Text → Option Text
unfolding write outcome_fields
trace_delivery_outcome c received outcome =
    if not c.debug
    then none
    else write c (codes "delivery") (outcome_fields c.resource_name (or_zero received) outcome)

-- `catch (...)`
module _ {S A : Type 0} where
  abbrev pub recover : Run S A → Result Thrown A × S → Result Thrown A × S
  recover handler (ok a, s) = (ok a, s)
  recover handler (err e, s) = handler s

  abbrev pub catch_all : Run S A → Run S A → Run S A
  catch_all m handler s = recover handler (m s)

module _ (api : MessageApi) (php : PhpApi api.Double) where
  abbrev pub id_text : php.Value → Option Text
  id_text id = if php.is_null id then none else some (php.string_value id)

  -- The `try` block of `traceDelivery`.
  unfoldable pub trace_metadata : Context → Option ℕ → Text → M api (Option Text)
  unfolding write delivery_fields get_message_id get_all_metadata get_delivery_count
  trace_metadata c received outcome = do
    id ← get_message_id api php
    annotations ← get_all_metadata api php true
    count ← get_delivery_count api php
    let sequence_number = php.at_text annotations (codes "x-opt-sequence-number")
    let locked_until = php.at_text annotations (codes "x-opt-locked-until")
    pure (
        write c (codes "delivery") (
          delivery_fields c.resource_name (or_zero received) (id_text id) (php.string_value count)
            (php.string_value sequence_number) (php.string_value locked_until) outcome))

  -- `traceDelivery`: what it writes, if anything.
  unfoldable pub trace_delivery : Context → Option ℕ → Text → M api (Option Text)
  unfolding trace_metadata unavailable_fields
  trace_delivery c received outcome =
      if not c.debug
      then pure none
      else catch_all (trace_metadata c received outcome)
          (pure (write c (codes "metadata-unavailable") (unavailable_fields outcome)))
