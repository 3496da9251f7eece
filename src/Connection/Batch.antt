-- ===== src/Connection/Batch.antt =====
-- Connection.cpp and Consumer.cpp: the credit of a finite batch while the library dispatches.
use azure_uamqp_php.Prelude.{
  ℕ, zero, suc, ◌+◌, ◌≤◌, ◌<◌, ◌≡◌, refl, ◌⊎◌, inl, ◌∙◌, sym, Bool, true, false, Option, none, some,
  List, [], ◌∷◌, arith, Text, subst,
}
use azure_uamqp_php.Runtime.Library.{
  Thrown, accepted, released, modified, PhpRun, Call, close_call, consume_call,
  was_close_requested_call, set_callback_call, returns, throws, calls, Reply, answer, failure,
  Delivery, ReceiverState, Uamqp, Dispatch,
}
use azure_uamqp_php.Runtime.State.{System, Action, settled, Outcome, returned, raised, stuck, M}
use azure_uamqp_php.Consumer.Handlers.{
  use_credit, after_callback, record_exception, request_stop, handle_callback_exception,
  handle_link_detach, handle_receiver_state, detach_with,
}
use azure_uamqp_php.Consumer.Dispatching.{
  run_php, reply_with, on_message, handle_io_error, dispatch, do_work,
}
use azure_uamqp_php.Consumer.Answering.{
  finish, with_credit_used, released_with, not_delivered, on_message-cases,
}
use azure_uamqp_php.Consumer.Induction.{answered, run_php-keeps, dispatch-keeps}
use azure_uamqp_php.Connection.Reentrancy.{nested, php_work}
use azure_uamqp_php.Connection.Methods.{php_call}

-- Deliveries that were given to the callback, or failed on the way to it.
abbrev pub handled : List Action → ℕ
handled [] = 0
handled (settled accepted ∷ log) = suc (handled log)
handled (settled modified ∷ log) = suc (handled log)
handled (_ ∷ log) = handled log

-- What the consumer has handled and what it may still handle are within `bound`, and without credit
-- it is stopping.
pub record IsWithin {L : Type 0} (bound : ℕ) (s : System L) : Type 0 where
  pub finite : s.consumer.finite_batch ≡ true
  pub total : handled s.log + s.consumer.credit_remaining ≤ bound
  pub spent : (0 < s.consumer.credit_remaining) ⊎ (s.consumer.close_requested ≡ true)

-- What PHP code may change of the consumer from inside a callback.
record IsRunFrom {L : Type 0} (s t : System L) : Type 0 where
  same_log : t.log ≡ s.log
  same_credit : t.consumer.credit_remaining ≡ s.consumer.credit_remaining
  same_finite : t.consumer.finite_batch ≡ s.consumer.finite_batch

nested-IsRunFrom :
    {L : Type 0} (s : System L) (c : Call) (t : System L)
    → IsRunFrom s t
    → IsRunFrom s (nested c t).1
unfolding nested request_stop
nested-IsRunFrom s close_call t r = ground arith
nested-IsRunFrom s consume_call t r = r
nested-IsRunFrom s was_close_requested_call t r = r
nested-IsRunFrom s (set_callback_call credit loop) t r = r

run_php-IsRunFrom :
    {L : Type 0} (run : PhpRun) (s : System L) → IsRunFrom s (run_php nested run s).1
run_php-IsRunFrom run s =
    run_php-keeps nested (IsRunFrom s) (nested-IsRunFrom s) run s
      (record { same_log = refl; same_credit = refl; same_finite = refl })

-- PHP code whose calls are nested ends.
abbrev pub ends : {A : Type 0} → Outcome A → Bool
ends stuck = false
ends _ = true

nested-ends : {L : Type 0} (c : Call) (s : System L) → ends (nested c s).0 ≡ true
unfolding nested
nested-ends close_call s = refl
nested-ends consume_call s = refl
nested-ends was_close_requested_call s = refl
nested-ends (set_callback_call credit loop) s = refl

pub run_php-ends : {L : Type 0} (run : PhpRun) (s : System L) → ends (run_php nested run s).0 ≡ true
unfolding run_php
run_php-ends (returns b) s = refl
run_php-ends (throws e) s = refl
run_php-ends {L} (calls c next) s =
    go (nested c s) (nested-ends c s) (λ r s'. run_php-ends (next r) s')
  where
    go :
        (x : Outcome Bool × System L)
        → ends x.0 ≡ true
        → ((r : Reply) (s' : System L) → ends (run_php nested (next r) s').0 ≡ true)
        → ends (reply_with (λ r. run_php nested (next r)) x).0 ≡ true
    go (returned b, s') e ih = ih (answer b) s'
    go (raised x, s') e ih = ih (failure x) s'
    go (stuck, s') e ih = e

module _ {L : Type 0} (bound : ℕ) where
  -- Room for the delivery that is being handled.
  record HasRoom (s : System L) : Type 0 where
    finite : s.consumer.finite_batch ≡ true
    room : suc (handled s.log) + s.consumer.credit_remaining ≤ bound

  HasRoom-IsRunFrom : (s t : System L) → IsRunFrom s t → HasRoom s → HasRoom t
  HasRoom-IsRunFrom s t r h = record {
    finite = r.same_finite ∙ h.finite;
    room =
        subst (λ l. suc (handled l) + t.consumer.credit_remaining ≤ bound) (sym r.same_log)
          (subst (λ n. suc (handled s.log) + n ≤ bound) (sym r.same_credit) h.room);
  }

  finish-IsWithin :
      (x : Outcome Bool × System L)
      → ends x.0 ≡ true
      → HasRoom x.1
      → IsWithin bound (answered (finish x))
  unfolding finish after_callback record_exception handle_callback_exception request_stop
  finish-IsWithin (returned true, s) e h = ground arith
  finish-IsWithin (returned false, s) e h = ground arith
  finish-IsWithin (raised (Thrown.php id what), s) e h = ground arith
  finish-IsWithin (raised (Thrown.extension what), s) e h = ground arith
  finish-IsWithin (raised (Thrown.standard what), s) e h = ground arith
  finish-IsWithin (raised Thrown.other, s) e h = ground arith
  finish-IsWithin (stuck, s) e h = ground arith

  not_delivered-IsWithin :
      (x : Thrown) (s : System L) → HasRoom s → IsWithin bound (answered (not_delivered x s))
  unfolding record_exception handle_callback_exception request_stop
  not_delivered-IsWithin (Thrown.php id what) s h = ground arith
  not_delivered-IsWithin (Thrown.extension what) s h = ground arith
  not_delivered-IsWithin (Thrown.standard what) s h = ground arith
  not_delivered-IsWithin Thrown.other s h = ground arith

  stopped-IsWithin :
      (s : System L)
      → IsWithin bound s
      → s.consumer.close_requested ≡ true
      → IsWithin bound (answered (returned released, released_with s))
  unfolding use_credit
  stopped-IsWithin s w e = ground arith

  use_credit-HasRoom :
      (s : System L)
      → IsWithin bound s
      → s.consumer.close_requested ≡ false
      → HasRoom (with_credit_used s)
  unfolding use_credit
  use_credit-HasRoom s w e = ground arith

  on_message-IsWithin :
      (d : Delivery) (s : System L)
      → IsWithin bound s
      → IsWithin bound (answered (on_message nested d s))
  on_message-IsWithin d s w =
      on_message-cases nested d s (λ x. IsWithin bound (answered x)) (stopped-IsWithin s w)
        (λ h x. not_delivered-IsWithin x _ (use_credit-HasRoom s w h))
        (λ h. finish-IsWithin _ (run_php-ends d.run (with_credit_used s)) (
          HasRoom-IsRunFrom _ _ (run_php-IsRunFrom d.run (with_credit_used s))
            (use_credit-HasRoom s w h)))

  link_detach-IsWithin :
      (e : Option (Option Text × Option Text)) (s : System L)
      → IsWithin bound s
      → IsWithin bound (record s { consumer = handle_link_detach e s.consumer })
  unfolding handle_link_detach detach_with handle_callback_exception request_stop
  link_detach-IsWithin none s w = ground arith
  link_detach-IsWithin (some (condition, description)) s w = ground arith

  receiver_state-IsWithin :
      (x : ReceiverState) (s : System L)
      → IsWithin bound s
      → IsWithin bound (record s { consumer = handle_receiver_state x s.consumer })
  unfolding handle_receiver_state handle_callback_exception request_stop
  receiver_state-IsWithin x s w = ground arith

  io_error-IsWithin :
      (call : Call → M L Bool) (s : System L)
      → IsWithin bound s
      → IsWithin bound (handle_io_error call s).1
  unfolding handle_io_error handle_callback_exception request_stop
  io_error-IsWithin call s w = ground arith

  dispatch-IsWithin :
      (d : Dispatch L) (s : System L) → IsWithin bound s → IsWithin bound (dispatch nested d s).1
  dispatch-IsWithin d s w =
      dispatch-keeps nested (IsWithin bound)
        (record {
          by_message = on_message-IsWithin;
          by_detach = link_detach-IsWithin;
          by_state = receiver_state-IsWithin;
          by_io_error = io_error-IsWithin nested;
          by_send_complete =
              λ r s' w'. record { finite = w'.finite; total = w'.total; spent = w'.spent };
          by_sender_detach =
              λ c d s' w'. record { finite = w'.finite; total = w'.total; spent = w'.spent };
          by_library = λ l s' w'. record { finite = w'.finite; total = w'.total; spent = w'.spent };
        })
        d s w

  pub do_work-IsWithin :
      (api : Uamqp L) (s : System L) → IsWithin bound s → IsWithin bound (do_work nested api s).1
  unfolding do_work
  do_work-IsWithin api s w = ground (
    arith,
    dispatch-IsWithin (api.dowork s.library)
        (record s { connection = record s.connection { doing_work = true } }),
  )

-- The state after `k` dispatches, whatever each of them raises.
abbrev pub dispatches : {L : Type 0} → M L (Unit {0}) → ℕ → System L → System L
dispatches work zero s = s
dispatches work (suc k) s = dispatches work k (work s).1

module _ {L : Type 0} (api : Uamqp L) (depth : ℕ) where
  abbrev dispatching : M L (Unit {0})
  dispatching = do_work (php_call api (suc depth)) api

  dispatching-IsWithin :
      (bound : ℕ) (s : System L) → IsWithin bound s → IsWithin bound (dispatching s).1
  dispatching-IsWithin bound s w =
      subst (λ (m : M L (Unit {0})). IsWithin bound (m s).1) (sym (php_work api depth))
        (do_work-IsWithin bound api s w)

  dispatches-IsWithin :
      (bound k : ℕ) (s : System L) → IsWithin bound s → IsWithin bound (dispatches dispatching k s)
  dispatches-IsWithin bound zero s w = w
  dispatches-IsWithin bound (suc k) s w =
      dispatches-IsWithin bound k (dispatching s).1 (dispatching-IsWithin bound s w)

-- A finite batch with credit left: however many dispatches follow, whatever uAMQP delivers and
-- whatever the callbacks call, to any depth, no more deliveries are handled from then on than
-- there is credit, counting those that fail.
pub batch_bounded :
    {L : Type 0} (api : Uamqp L) (depth k : ℕ) (s : System L)
    → s.consumer.finite_batch ≡ true
    → 0 < s.consumer.credit_remaining
    → handled (dispatches (do_work (php_call api (suc depth)) api) k s).log
      ≤ handled s.log + s.consumer.credit_remaining
batch_bounded api depth k s f c =
    let start : IsWithin (handled s.log + s.consumer.credit_remaining) s = record {
      finite = f;
      total = ground arith;
      spent = inl c;
    } in
    let after =
      dispatches-IsWithin api depth (handled s.log + s.consumer.credit_remaining) k s start in
    ground (arith, after)
