-- ===== src/Lib.antt =====
-- Verification of azure-uamqp-php, the PHP extension that sends and receives AMQP messages by
-- azure-uamqp-c.
--
-- The parts and the files that model them:
--
-- * AmqpValueDecoder.cpp and AmqpValueDecoder.h: Decoder, with its children. `decode_amqp_value`
--   takes an AMQP value apart into `Decoded`, the struct DecodedAmqpValue: one constructor for each
--   of its types. A std::map is the sorted association list `Entries`, which `insert` writes, and a
--   std::vector is `Items`. Texts are lists of bytes. AmqpValue holds the parameter `AmqpApi`: the
--   getters of azure-uamqp-c, where `none` is a result code other than 0, or NULL. The recursion is
--   on the levels that are left: 33 less the depth, none of which is the error that the code throws
--   when the depth is over 32, so that the fuel is the code's own bound.
-- * Connection.cpp, `quote` and `trace`: Quote. The value of `trace` is what is written to the log
--   file, if anything is; the time and the process are arguments.
-- * Consumer.cpp, `traceDelivery`, `traceDeliveryOutcome` and the other calls of `trace`: Trace. Its
--   definitions give the fields of each record, and `trace_delivery` runs the getters of Message
--   inside its catch-all. Json has a reader of JSON objects, against which the records are stated.
-- * Connection.cpp, the file sink of the logger: Logging. Files are numbers, a new one for each
--   that is opened, and a log has what is done to them; what `vfprintf` prints is an argument.
-- * Session.cpp and Session.h: Session, the class by itself, with the calls that it makes.
-- * main.cpp, what PHP sees: Registration. The tables of methods, with their parameters and the functions that read
--   the list of arguments; these are `none` where they read an argument that is not there, and go
--   on to the methods of Message and Connection.
-- * debugging/subscription_consumer.cpp, the receive debugger: Debugger. In what `parseOptions`
--   needs exceptions are the constructors of `CommandError`, the environment is an argument, and
--   `--help` is an error of its own; Receiving has the callbacks, the receive loop and the end of
--   `main`.
-- * Consumer.cpp and Consumer.h: Consumer. Handlers has what changes the consumer alone,
--   Dispatching what happens while the library dispatches, and Closing the methods.
-- * Connection.cpp and Connection.h, the receive path: Connection. Lifecycle has `connect` and
--   `close`, Methods what PHP calls, Logger `ensureLoggerConfigured`, and Objects the constructors
--   and the destructor.
-- * Producer.cpp and Connection.cpp, `publish`: Producer. Handlers has the callbacks, which change
--   what the code keeps in globals, and Publishing the constructor and `publish`.
-- * Message.cpp and Message.h: Message. Body has the object's life and its body (with
--   AmqpValueBodyDecoder.cpp), Php what decoded metadata is to PHP, Metadata what reads it and
--   copies its containers, and Setting what changes it. The parameter `MessageApi` is azure-uamqp-c
--   over a state in which values can change, and `PhpApi` the values of PHP. A log notes which
--   containers and properties are created and which are written to, and another one which messages
--   of the library the object acquires and releases.
-- * Runtime has the state that Connection, Consumer and Producer share (`System`: the fields of the
--   objects, the library's state and a log of handles, dispositions and traces), the monad in which their
--   methods run, and the parameter `Uamqp`: what azure-uamqp-c, the clock and the platform answer.
-- * Prelude has what the parts share: lists, options, results, decimal numbers and 64-bit integers.
--
-- How they interact. PHP calls a method of Connection, which calls Consumer; Consumer calls back
-- `Connection::doWork`, which is `do_work`. One call of `connection_dowork` makes callbacks into
-- the consumer, the producer and the connection; it is the tree `Dispatch`, which the library
-- chooses and whose branches are the dispositions that it is answered. A message callback runs PHP
-- code, `PhpRun`, which is an arbitrary tree of calls of the connection's methods and of their
-- outcomes. `php_call` ties the knot: it allows PHP code to nest `depth` calls in each other, and a
-- deeper one is `stuck`.
--
-- Bounds. Shutdown loops take as many rounds as their deadline has milliseconds, and one more: each
-- round sleeps for one, so that a steady clock reaches the deadline in them. A loop that runs out
-- of them is `stuck`, as a value of its own; what is stated of states holds of that one, too. Link
-- credit is a natural number within 32 bits by `link_credit`.
--
-- The debugger's receive loop takes ten rounds for each second of its timeout, and two more, as
-- each round sleeps for 100 milliseconds. The loop of `publish` has no deadline of its own: it
-- takes the fuel that its caller gives, and waits for the library to answer the message or to
-- detach the link.
--
-- What is not modelled: callbacks that the library makes while a receiver is opened or closed, and
-- not while it dispatches; the answer to a message for a receiver that is NULL, since every
-- receiver is opened with its own object; calls of `publish` and of constructors from PHP code in
-- a message callback; when a method reads its arguments: the model of main.cpp reads them first,
-- and PHP-CPP makes no call without those that are required; a detach of the sender's link without
-- a condition or a description, which the code reads as NULL; what PHP-CPP does with the
-- registered tables, the types of the parameters among it; what the debugger writes to the error
-- stream; reference counts and the release of temporaries; host names, keys and resource names,
-- which sending and receiving only pass on to the library. The log of actions notes each call of
-- `trace` on the receive path with what it is about; Trace has the text of these records, from a
-- message and its library of their own.
pub mod Prelude
pub mod AmqpValue
pub mod Decoder
pub mod Quote
pub mod Debugger
pub mod Runtime
pub mod Trace
pub mod Logging
pub mod Session
pub mod Registration
pub mod Message
pub mod Producer
pub mod Consumer
pub mod Connection
