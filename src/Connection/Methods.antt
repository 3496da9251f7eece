-- ===== src/Connection/Methods.antt =====
-- Connection.cpp, `setCallback`, `consume`, `wasCloseRequested`, and the calls that PHP makes.
use azure_uamqp_php.Prelude.{
  ℕ, zero, suc, ◌-◌, ◌^◌, Bool, true, false, ◌&&◌, ◌||◌, none, some, Option, codes, ltb,
  if◌then◌else◌,
}
use azure_uamqp_php.Prelude.Int.{ℤ, pos, negsuc}
use azure_uamqp_php.Runtime.Library.{
  Thrown, PhpRun, Call, close_call, consume_call, was_close_requested_call, set_callback_call,
  Uamqp,
}
use azure_uamqp_php.Runtime.State.{
  stuck, M, ◌>>=◌, ◌>>◌, pure, raise, gets, change_connection, when, try_catch,
}
use azure_uamqp_php.Consumer.Dispatching.{do_work}
use azure_uamqp_php.Consumer.Closing as Consumers
use azure_uamqp_php.Consumer.Closing.{construct, destroy_handles}
use azure_uamqp_php.Connection.Lifecycle.{connect, close}

-- `requestedCredit < 1 || requestedCredit > 4294967295` throws, which is `none`; left out it is 0.
unfoldable pub link_credit : Option ℤ → Option ℕ
link_credit none = some 0
link_credit (some (negsuc n)) = none
link_credit (some (pos n)) = if ltb n 1 || ltb (2 ^ 32 - 1) n then none else some n

-- `consume`, where `work` is `doWork`.
unfoldable pub consume_by : {L : Type 0} → Uamqp L → M L (Unit {0}) → M L (Unit {0})
unfolding Consumers.consume
consume_by api work = do
  busy ← gets (λ s. s.connection.doing_work)
  when busy (raise (Thrown.extension (codes "Cannot recursively consume from a message callback")))
  has_consumer ← gets (λ s. s.connection.consumer)
  when has_consumer (Consumers.consume api work)

module _ {L : Type 0} (api : Uamqp L) (call : Call → M L Bool) where
  -- `doWork`, whose callbacks make their calls by `call`.
  abbrev pub work : M L (Unit {0})
  work = do_work call api

  -- The receiver run, between the two changes of `receiverRunActive`.
  unfoldable pub run_receiver : PhpRun → M L (Unit {0})
  unfolding Consumers.set_callback close
  run_receiver loop = do
    change_connection (λ c. record c { receiver_run_active = true })
    try_catch (Consumers.set_callback api work call loop) λ e. do
      change_connection (λ c. record c { receiver_run_active = false })
      try_catch (close api work) (λ _. pure tt)
      raise e
    change_connection (λ c. record c { receiver_run_active = false })
    stopping ← gets (λ s. s.connection.close_requested)
    when stopping (close api work)

  unfoldable pub start_receiver : ℕ → PhpRun → M L (Unit {0})
  unfolding connect Consumers.close destroy_handles construct run_receiver
  start_receiver credit loop = do
    connect api
    has_consumer ← gets (λ s. s.connection.consumer)
    when has_consumer do
      Consumers.close api work
      destroy_handles api
      change_connection (λ c. record c { consumer = false })
    construct api credit
    run_receiver loop

  unfoldable pub set_callback : Option ℤ → PhpRun → M L (Unit {0})
  unfolding link_credit start_receiver
  set_callback requested loop = elim (link_credit requested) [
    | none ↦ raise (
        Thrown.extension (
          codes
            "maxLinkCredit must be between 1 and 4294967295; omit it for continuous consumption"))
    | some credit ↦ start_receiver credit loop
  ]

  unfoldable pub consume : M L (Unit {0})
  unfolding consume_by
  consume = consume_by api work

  unfoldable pub was_close_requested : M L Bool
  was_close_requested =
      gets
        (λ s. s.connection.close_requested || (s.connection.consumer && s.consumer.close_requested))

  unfoldable pub method : Call → M L Bool
  unfolding close consume was_close_requested set_callback
  method close_call = do close api work; pure false
  method consume_call = do consume; pure false
  method was_close_requested_call = was_close_requested
  method (set_callback_call credit loop) = do set_callback credit loop; pure false

-- A call from PHP, in which PHP code may nest `depth` calls more.
unfoldable pub php_call : {L : Type 0} → Uamqp L → ℕ → Call → M L Bool
unfolding method
php_call api zero c = λ s. (stuck, s)
php_call api (suc depth) c = method api (php_call api depth) c
