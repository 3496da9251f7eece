-- ===== src/Connection/Traced.antt =====
-- Consumer.cpp, `handleMessage` and `onMessage`: what is traced of deliveries, and how they are
-- answered.
use azure_uamqp_php.Prelude.{
  ℕ, zero, suc, ◌≤◌, ◌≡◌, sym, subst, Bool, true, false, List, [], ◌∷◌, Text, codes, text_eq,
  if◌then◌else◌, arith,
}
use azure_uamqp_php.Runtime.Library.{
  accepted, released, modified, Call, close_call, consume_call, was_close_requested_call,
  set_callback_call, Delivery, Dispatch, Uamqp,
}
use azure_uamqp_php.Runtime.State.{
  System, Outcome, returned, raised, stuck, M, Action, settled, delivery_traced, outcome_traced,
}
use azure_uamqp_php.Consumer.Dispatching.{on_message, dispatch, do_work, handle_io_error}
use azure_uamqp_php.Consumer.Answering.{with_credit_used, finish, on_message-cases}
use azure_uamqp_php.Consumer.Induction.{answered, run_php-keeps, dispatch-keeps}
use azure_uamqp_php.Connection.Reentrancy.{nested, php_work}
use azure_uamqp_php.Connection.Methods.{php_call}
use azure_uamqp_php.Connection.Batch.{dispatches}

abbrev pub is_accepted : Action → Bool
is_accepted (settled accepted) = true
is_accepted _ = false

abbrev pub is_released : Action → Bool
is_released (settled released) = true
is_released _ = false

abbrev pub is_modified : Action → Bool
is_modified (settled modified) = true
is_modified _ = false

abbrev pub is_delivery_record : Action → Bool
is_delivery_record (delivery_traced t) = true
is_delivery_record _ = false

abbrev pub is_outcome_record : Text → Action → Bool
is_outcome_record outcome (outcome_traced t) = text_eq t outcome
is_outcome_record outcome _ = false

abbrev pub count : (Action → Bool) → List Action → ℕ
count p [] = 0
count p (a ∷ log) = if p a then suc (count p log) else count p log

-- Accepted and released deliveries have one record each, and every record of a failure belongs to
-- a delivery that is marked as modified.
pub record IsBalanced (log : List Action) : Type 0 where
  pub of_accepted : count is_accepted log ≡ count is_delivery_record log
  pub of_released :
      count is_released log ≡ count (is_outcome_record (codes "released-unhandled")) log
  pub of_modified : count (is_outcome_record (codes "abandoned-error")) log ≤ count is_modified log

module _ {L : Type 0} where
  abbrev LogIsBalanced : System L → Type 0
  LogIsBalanced s = IsBalanced s.log

  nested-LogIsBalanced : (c : Call) (s : System L) → LogIsBalanced s → LogIsBalanced (nested c s).1
  unfolding nested
  nested-LogIsBalanced close_call s b = b
  nested-LogIsBalanced consume_call s b = b
  nested-LogIsBalanced was_close_requested_call s b = b
  nested-LogIsBalanced (set_callback_call credit loop) s b = b

  finish-LogIsBalanced :
      (x : Outcome Bool × System L) → LogIsBalanced x.1 → LogIsBalanced (answered (finish x))
  unfolding finish
  finish-LogIsBalanced (returned stop, s) b = ground arith
  finish-LogIsBalanced (raised e, s) b = ground arith
  finish-LogIsBalanced (stuck, s) b = b

  on_message-LogIsBalanced :
      (d : Delivery) (s : System L)
      → LogIsBalanced s
      → LogIsBalanced (answered (on_message nested d s))
  on_message-LogIsBalanced d s b =
      on_message-cases nested d s (λ x. LogIsBalanced (answered x)) (λ h. ground arith)
        (λ h e. ground arith)
        (λ h.
          finish-LogIsBalanced _
            (run_php-keeps nested LogIsBalanced nested-LogIsBalanced d.run (with_credit_used s) b))

  dispatch-LogIsBalanced :
      (d : Dispatch L) (s : System L) → LogIsBalanced s → LogIsBalanced (dispatch nested d s).1
  unfolding handle_io_error
  dispatch-LogIsBalanced = dispatch-keeps nested LogIsBalanced (record {
    by_message = on_message-LogIsBalanced;
    by_detach = λ e s b. b;
    by_state = λ x s b. b;
    by_io_error = λ s b. ground (arith, b);
    by_send_complete = λ r s b. b;
    by_sender_detach = λ c d s b. b;
    by_library = λ l s b. b;
  })

  do_work-LogIsBalanced :
      (api : Uamqp L) (s : System L) → LogIsBalanced s → LogIsBalanced (do_work nested api s).1
  unfolding do_work
  do_work-LogIsBalanced api s b = ground (
    arith,
    dispatch-LogIsBalanced (api.dowork s.library)
        (record s { connection = record s.connection { doing_work = true } }),
  )

-- However many dispatches follow, whatever uAMQP delivers and whatever the callbacks call, to any
-- depth: if the log was balanced before, it is after, so that as many deliveries are accepted as
-- there are records of an accepted one, as many released as there are records of that, and no more
-- failures are recorded than deliveries are marked as modified.
pub dispatches-IsBalanced :
    {L : Type 0} (api : Uamqp L) (depth k : ℕ) (s : System L)
    → IsBalanced s.log
    → IsBalanced (dispatches (do_work (php_call api (suc depth)) api) k s).log
dispatches-IsBalanced api depth zero s b = b
dispatches-IsBalanced api depth (suc k) s b = dispatches-IsBalanced api depth k _ (
    subst (λ (m : M _ (Unit {0})). IsBalanced (m s).1.log) (sym (php_work api depth))
      (do_work-LogIsBalanced api s b))
