-- ===== src/Producer/Publishing.antt =====
-- Producer.cpp, the constructor and `publish`, and Connection.cpp, `publish`.
use azure_uamqp_php.Prelude.{ℕ, zero, suc, false, not, ◌==◌, [], codes, is_empty, if◌then◌else◌}
use azure_uamqp_php.Runtime.Library.{Thrown, Handle, Uamqp}
use azure_uamqp_php.Runtime.State.{
  Producer, M, stuck, ◌>>=◌, ◌>>◌, pure, raise, gets, change_producer, when, library_call,
}
use azure_uamqp_php.Consumer.Closing.{create, destroy}
use azure_uamqp_php.Connection.Lifecycle.{connect, close}

-- The globals at the start of `publish`.
abbrev pub unsent : Producer
unsent = record { sent_messages = 0; stop_running = false; exception_message = [] }

module _ {L : Type 0} (api : Uamqp L) where
  -- The constructor. The results of all calls but the last are not looked at.
  unfoldable pub construct : M L (Unit {0})
  unfolding create
  construct = do
    _ ← library_call api.messaging_create_source
    _ ← library_call api.messaging_create_target
    _ ← create api Handle.sender_link
    _ ← library_call api.link_set_snd_settle_mode
    _ ← library_call api.link_set_max_message_size
    _ ← library_call api.link_subscribe_on_link_detach_received
    made ← create api Handle.message_sender
    when (not made) (raise (Thrown.extension (codes "Could not create message sender")))

  module _ (work : M L (Unit {0})) where
    -- The loop of `publish`, of which `fuel` rounds are left.
    unfoldable pub wait : ℕ → M L (Unit {0})
    wait zero = λ s. (stuck, s)
    wait (suc fuel) = do
      stopped ← gets (λ s. s.producer.stop_running)
      if stopped then pure tt else (do
        work
        sent ← gets (λ s. s.producer.sent_messages)
        if sent == 1 then pure tt else wait fuel)

    -- What comes after the loop.
    unfoldable pub finish : M L (Unit {0})
    unfolding destroy close
    finish = do
      destroy api Handle.message_sender
      destroy api Handle.sender_link
      close api work
      text ← gets (λ s. s.producer.exception_message)
      when (not (is_empty text)) (raise (Thrown.extension text))

    -- `Producer::publish`
    unfoldable pub send : ℕ → M L (Unit {0})
    unfolding wait finish
    send fuel = do
      change_producer (λ _. unsent)
      opened ← library_call api.messagesender_open
      when (not opened) (raise (Thrown.extension (codes "Error creating messaging sender")))
      _ ← library_call api.messagesender_send_async
      wait fuel
      finish

    -- `Connection::publish`
    unfoldable pub publish : ℕ → M L (Unit {0})
    unfolding connect construct send
    publish fuel = do connect api; construct; send fuel
