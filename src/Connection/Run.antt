-- ===== src/Connection/Run.antt =====
-- Connection.cpp, `setCallback`: the credit of a finite batch in a whole receiver run.
use azure_uamqp_php.Prelude.{
  ℕ, suc, ◌+◌, ◌≤◌, ◌<◌, ◌≡◌, refl, sym, Bool, true, false, not, codes, subst, arith, inl,
}
use azure_uamqp_php.Runtime.Library.{Thrown, PhpRun, Call, Uamqp}
use azure_uamqp_php.Runtime.State.{
  System, Outcome, M, ◌>>=◌, ◌>>◌, gets, pure, raise, when, change_connection, change_consumer,
  try_catch,
}
use azure_uamqp_php.Runtime.Keeps.{
  Keeps, keeps, kept, Keeps-bind, Keeps-then, Keeps-catch, Keeps-when, Keeps-pure, Keeps-raise,
  Keeps-gets,
}
use azure_uamqp_php.Consumer.Dispatching.{run_php, do_work}
use azure_uamqp_php.Consumer.Induction.{run_php-keeps}
use azure_uamqp_php.Consumer.Closing as Consumers
use azure_uamqp_php.Consumer.Closing.{
  destroy, destroy_handles, throw_pending_exception, pump, pump_while, drain_while, drain,
  detach_receiver, shut_down, replenish,
}
use azure_uamqp_php.Connection.Reentrancy.{nested, php_work}
use azure_uamqp_php.Connection.Lifecycle.{close}
use azure_uamqp_php.Connection.Methods.{php_call, run_receiver}
use azure_uamqp_php.Connection.Batch.{IsWithin, handled}
use azure_uamqp_php.Connection.Keeping.{IsRun, work, library_call-Keeps, consumer_close-Keeps}
use azure_uamqp_php.Connection.Cleanup.{close-Keeps}
use azure_uamqp_php.Connection.Running.{method-Keeps}

-- The whole run: the loop function's calls, the shutdown and what `close` adds.
module _ {L : Type 0} (api : Uamqp L) (bound depth : ℕ) where
  abbrev call : Call → M L Bool
  call = php_call api (suc (suc depth))

  call-Keeps :
      (c : Call) (s : System L) → IsRun api bound true s → IsRun api bound true (call c s).1
  unfolding php_call
  call-Keeps c =
      kept (IsRun api bound true)
        (method-Keeps api bound (php_call api (suc depth)) (php_work api depth) c)

  loop-Keeps : (loop : PhpRun) → Keeps (IsRun api bound true) (run_php call loop)
  loop-Keeps loop = keeps (run_php-keeps call (IsRun api bound true) call-Keeps loop)

  callback_set-Keeps :
      Keeps (IsRun api bound true) (change_consumer (λ c. record c { callback_set = true }))
  callback_set-Keeps = keeps (λ s r. ground arith)

  consumer_set_callback-Keeps :
      (loop : PhpRun)
      → Keeps (IsRun api bound true) (Consumers.set_callback api (do_work nested api) call loop)
  unfolding Consumers.set_callback
  consumer_set_callback-Keeps loop =
      let P = IsRun api bound true in
      Keeps-then P callback_set-Keeps (
        Keeps-bind P (library_call-Keeps api bound true api.messagereceiver_open) λ opened.
          Keeps-then P
            (Keeps-when P (not opened)
              (Keeps-raise P (Thrown.extension (codes "Could not open the message receiver"))))
            (Keeps-bind P (loop-Keeps loop) λ x. consumer_close-Keeps api bound true))

  abbrev Within : System L → Type 0
  Within = IsRun api bound false

  ended-Keeps : Keeps Within (change_connection (λ c. record c { receiver_run_active = false }))
  ended-Keeps = keeps (λ s r. ground arith)

  -- The two ends of the run, where `work` is `doWork`.
  abbrev failed : M L (Unit {0}) → Thrown → M L (Unit {0})
  failed work e = do
    change_connection (λ c. record c { receiver_run_active = false })
    try_catch (close api work) (λ _. pure tt)
    raise e

  abbrev ended : M L (Unit {0}) → M L (Unit {0})
  ended work = do
    change_connection (λ c. record c { receiver_run_active = false })
    stopping ← gets (λ s. s.connection.close_requested)
    when stopping (close api work)

  failed-Keeps : (e : Thrown) → Keeps Within (failed (do_work nested api) e)
  failed-Keeps e = Keeps-then Within ended-Keeps (
      Keeps-then Within
        (Keeps-catch Within (close-Keeps api bound false) (λ x. Keeps-pure Within tt))
        (Keeps-raise Within e))

  stopped-Keeps : Keeps Within (ended (do_work nested api))
  stopped-Keeps = Keeps-then Within ended-Keeps (
      Keeps-bind Within (Keeps-gets Within (λ s. s.connection.close_requested))
        λ stopping. Keeps-when Within stopping (close-Keeps api bound false))

  abbrev started : System L → System L
  started s = record s { connection = record s.connection { receiver_run_active = true } }

  abbrev run_by : PhpRun → System L → M L (Unit {0}) → Outcome (Unit {0}) × System L
  run_by loop s work =
      (try_catch (Consumers.set_callback api work call loop) (failed work) >> ended work)
        (started s)

  run_by-Within :
      (loop : PhpRun) (s : System L)
      → IsWithin bound s
      → Within (run_by loop s (do_work nested api)).1
  run_by-Within loop s w =
      let begun : IsRun api bound true (started s) = record {
        within = record { finite = w.finite; total = w.total; spent = w.spent };
        active = refl;
      } in
      let run = kept (IsRun api bound true) (consumer_set_callback-Keeps loop) (started s) begun in
      let result = Consumers.set_callback api (do_work nested api) call loop (started s) in
      let caught =
        Keeps-catch Within {m = λ _. result} {h = failed (do_work nested api)}
          (keeps (λ _ _. record { within = run.within; active = refl })) failed-Keeps in
      kept Within (Keeps-then Within caught stopped-Keeps) (started s)
        (record { within = begun.within; active = refl })

  run_receiver-Within :
      (loop : PhpRun) (s : System L) → IsWithin bound s → Within (run_receiver api call loop s).1
  unfolding run_receiver
  run_receiver-Within loop s w =
      subst (λ m. Within (run_by loop s m).1) (sym (php_work api (suc depth)))
        (run_by-Within loop s w)

-- A receiver run that starts with a finite batch and credit left: from its start to its end, whatever
-- uAMQP delivers and whatever the loop function and the callbacks call and throw, no more deliveries
-- are handled than there is credit, counting those that fail. Calls may be nested to any depth
-- from two levels on.
pub run_bounded :
    {L : Type 0} (api : Uamqp L) (depth : ℕ) (loop : PhpRun) (s : System L)
    → s.consumer.finite_batch ≡ true
    → 0 < s.consumer.credit_remaining
    → handled (run_receiver api (php_call api (suc (suc depth))) loop s).1.log
      ≤ handled s.log + s.consumer.credit_remaining
run_bounded api depth loop s f c =
    let start : IsWithin (handled s.log + s.consumer.credit_remaining) s = record {
      finite = f;
      total = ground arith;
      spent = inl c;
    } in
    let after =
      run_receiver-Within api (handled s.log + s.consumer.credit_remaining) depth loop s start in
    ground (arith, after.within.total)
