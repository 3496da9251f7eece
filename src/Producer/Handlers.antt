-- ===== src/Producer/Handlers.antt =====
-- Producer.cpp: what the library's callbacks do to the globals.
use azure_uamqp_php.Prelude.{◌+◌, ◌%◌, ◌^◌, true, Text, codes, ◌++◌}
use azure_uamqp_php.Runtime.Library.{SendResult}
use azure_uamqp_php.Runtime.State.{Producer}

-- The send result is not looked at. `sent_messages` is an `unsigned int`.
unfoldable pub on_message_send_complete : SendResult → Producer → Producer
on_message_send_complete r p = record p { sent_messages = (p.sent_messages + 1) % 2 ^ 32 }

-- `on_link_detach_received_producer`
unfoldable pub on_link_detach_received : Text → Text → Producer → Producer
on_link_detach_received condition description p = record p {
  exception_message =
      p.exception_message ++ (codes "(" ++ (condition ++ (codes ") " ++ description)));
  stop_running = true;
}
