-- ===== src/Connection/Objects.antt =====
-- Connection.h and Connection.cpp: how the object starts and ends.
use azure_uamqp_php.Prelude.{Bool, false, not, ◌&&◌, Text, is_empty}
use azure_uamqp_php.Runtime.Library.{Uamqp}
use azure_uamqp_php.Runtime.State.{Connection, M, pure, try_catch}
use azure_uamqp_php.Connection.Lifecycle.{close}

-- `Connection()`, with the initial values of the class.
abbrev pub initial : Connection
initial = record {
  use_tls = false;
  use_auth = false;
  is_connected = false;
  close_requested = false;
  platform_initialized = false;
  doing_work = false;
  receiver_run_active = false;
  closing = false;
  io_error = false;
  consumer = false;
  session = false;
  connection = false;
  sasl_io = false;
  socket_io = false;
  tls_io = false;
  sasl_mechanism = false;
}

-- `__construct`, of whose parameters whether TLS is used, the key's name and the key are looked at. The
-- handles are forgotten, whatever they are.
unfoldable pub construct : Bool → Text → Text → Connection → Connection
construct use_tls key_name key c = record c {
  use_tls = use_tls;
  use_auth = not (is_empty key_name) && not (is_empty key);
  is_connected = false;
  close_requested = false;
  platform_initialized = false;
  consumer = false;
  session = false;
  connection = false;
  sasl_io = false;
  socket_io = false;
  tls_io = false;
  sasl_mechanism = false;
}

-- The destructor: what `close` throws is dropped.
unfoldable pub destroy_connection : {L : Type 0} → Uamqp L → M L (Unit {0}) → M L (Unit {0})
unfolding close
destroy_connection api work = try_catch (close api work) (λ _. pure tt)
