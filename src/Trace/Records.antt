-- ===== src/Trace/Records.antt =====
-- Connection.cpp, `trace`, and the records of Consumer.cpp: each is one line that holds a JSON
-- object.
use azure_uamqp_php.Prelude.{
  ℕ, ◌≡◌, refl, ◌∙◌, ap, sym, subst, Bool, true, false, Option, none, some, [], ◌∷◌, ◌++◌, Text,
  codes, arith, if◌then◌else◌,
}
use mathlib.Core.List.{append_assoc}
use azure_uamqp_php.Prelude.Decimal.{decimal}
use azure_uamqp_php.Quote.{quote, trace_record, trace}
use azure_uamqp_php.Quote.Line.{
  IsPrintable, quote-IsPrintable, decimal-IsPrintable, join, c_string-IsPrintable,
}
use azure_uamqp_php.Trace.Json.{
  Json, Members, value_text, member_text, object_text, more_text, AreBytes, MembersHaveBytes,
  read_object, all_seen, read_object-object_text,
}
use azure_uamqp_php.Trace.{
  Context, write, created_fields, outcome_fields, delivery_fields, unavailable_fields, drain_fields,
  closed_fields,
}

-- The calls of `trace` in Consumer.cpp, with what they are given.
pub data Event : Type 0 where
  receiver_created : Text → ℕ → Bool → Event
  outcome : Text → ℕ → Text → Event
  delivery : Text → ℕ → Option Text → ℕ → Text → Text → Text → Event
  unavailable : Text → Event
  drain : Bool → Event
  receiver_closed : Text → Bool → Text → Event

abbrev pub event_name : Event → Text
event_name (receiver_created _ _ _) = codes "receiver-created"
event_name (outcome _ _ _) = codes "delivery"
event_name (delivery _ _ _ _ _ _ _) = codes "delivery"
event_name (unavailable _) = codes "metadata-unavailable"
event_name (drain _) = codes "receiver-drain"
event_name (receiver_closed _ _ _) = codes "receiver-closed"

abbrev pub event_fields : Event → Text
event_fields (receiver_created resource credit finite) = created_fields resource credit finite
event_fields (outcome resource id disposition) = outcome_fields resource id disposition
event_fields (delivery resource id message_id count sequence locked disposition) =
    delivery_fields resource id message_id (decimal count) sequence locked disposition
event_fields (unavailable disposition) = unavailable_fields disposition
event_fields (drain drained) = drain_fields drained
event_fields (receiver_closed reason detach error) = closed_fields reason detach error

abbrev string_or_null : Option Text → Json
string_or_null none = Json.null
string_or_null (some t) = Json.string t

-- What a record says, as members of an object.
abbrev pub members : Event → Members
members (receiver_created resource credit finite) =
    (codes "resource", Json.string resource)
    ∷ (codes "credit", Json.number credit)
    ∷ (codes "finite", Json.boolean finite)
    ∷ []
members (outcome resource id disposition) =
    (codes "resource", Json.string resource)
    ∷ (codes "deliveryId", Json.number id)
    ∷ (codes "dispositionAttempt", Json.string disposition)
    ∷ []
members (delivery resource id message_id count sequence locked disposition) =
    (codes "resource", Json.string resource)
    ∷ (codes "deliveryId", Json.number id)
    ∷ (codes "messageId", string_or_null message_id)
    ∷ (codes "deliveryCount", Json.number count)
    ∷ (codes "sequenceNumber", Json.string sequence)
    ∷ (codes "lockedUntil", Json.string locked)
    ∷ (codes "dispositionAttempt", Json.string disposition)
    ∷ []
members (unavailable disposition) = (codes "dispositionAttempt", Json.string disposition) ∷ []
members (drain drained) = (codes "complete", Json.boolean drained) ∷ []
members (receiver_closed reason detach error) =
    (codes "reason", Json.string reason)
    ∷ (codes "peerDetach", Json.boolean detach)
    ∷ (codes "error", Json.string error)
    ∷ []

-- All that a line says: who wrote it and when, and then the record's own members.
abbrev pub later_members : Context → Event → Members
later_members c e =
    (codes "pid", Json.number c.pid)
    ∷ (codes "connection", Json.string c.connection_id)
    ∷ (codes "event", Json.string (event_name e))
    ∷ members e

abbrev pub all_members : Context → Event → Members
all_members c e = (codes "timestampMs", Json.number c.timestamp) ∷ later_members c e

-- The texts of a record are bytes.
abbrev pub OptionIsBytes : Option Text → Type 0
OptionIsBytes none = Unit {0}
OptionIsBytes (some t) = AreBytes t

abbrev pub EventHasBytes : Event → Type 0
EventHasBytes (receiver_created resource _ _) = AreBytes resource
EventHasBytes (outcome resource _ disposition) = AreBytes resource × AreBytes disposition
EventHasBytes (delivery resource _ id _ sequence locked disposition) =
    AreBytes resource
    × OptionIsBytes id
    × AreBytes sequence
    × AreBytes locked
    × AreBytes disposition
EventHasBytes (unavailable disposition) = AreBytes disposition
EventHasBytes (drain _) = Unit {0}
EventHasBytes (receiver_closed reason _ error) = AreBytes reason × AreBytes error

-- The line of each record is the object of its members, written member by member.
trace_record-object_text :
    (c : Context) (e : Event)
    → trace_record c.timestamp c.pid c.connection_id (event_name e) (event_fields e)
      ≡ object_text (codes "timestampMs") (Json.number c.timestamp) (later_members c e)
unfolding trace_record quote created_fields outcome_fields delivery_fields unavailable_fields
    drain_fields closed_fields
trace_record-object_text c (receiver_created resource credit true) = simp append_assoc
trace_record-object_text c (receiver_created resource credit false) = simp append_assoc
trace_record-object_text c (outcome resource id disposition) = simp append_assoc
trace_record-object_text c (delivery resource id none count sequence locked disposition) =
    simp append_assoc
trace_record-object_text c (delivery resource id (some t) count sequence locked disposition) =
    simp append_assoc
trace_record-object_text c (unavailable disposition) = simp append_assoc
trace_record-object_text c (drain true) = simp append_assoc
trace_record-object_text c (drain false) = simp append_assoc
trace_record-object_text c (receiver_closed reason true error) = simp append_assoc
trace_record-object_text c (receiver_closed reason false error) = simp append_assoc

value_text-IsPrintable : (v : Json) → IsPrintable (value_text v)
value_text-IsPrintable Json.null = omega arith
value_text-IsPrintable (Json.boolean true) = omega arith
value_text-IsPrintable (Json.boolean false) = omega arith
value_text-IsPrintable (Json.number n) = decimal-IsPrintable n
value_text-IsPrintable (Json.string t) = quote-IsPrintable t

member_text-IsPrintable :
    (k : Text) (v : Json) (rest : Text) → IsPrintable rest → IsPrintable (member_text k v rest)
member_text-IsPrintable k v rest p =
    join (quote k) _ (quote-IsPrintable k)
      (omega arith, join (value_text v) rest (value_text-IsPrintable v) p)

more_text-IsPrintable : (ms : Members) → IsPrintable (more_text ms)
more_text-IsPrintable [] = omega arith
more_text-IsPrintable ((k, v) ∷ ms) =
    (omega arith, member_text-IsPrintable k v (more_text ms) (more_text-IsPrintable ms))

object_text-IsPrintable : (k : Text) (v : Json) (ms : Members) → IsPrintable (object_text k v ms)
object_text-IsPrintable k v ms =
    (omega arith, member_text-IsPrintable k v (more_text ms) (more_text-IsPrintable ms))

event_name-AreBytes : (e : Event) → AreBytes (event_name e)
event_name-AreBytes (receiver_created _ _ _) = omega arith
event_name-AreBytes (outcome _ _ _) = omega arith
event_name-AreBytes _ = omega arith

members-MembersHaveBytes : (e : Event) → EventHasBytes e → MembersHaveBytes (members e)
members-MembersHaveBytes (receiver_created resource credit finite) h =
    (omega arith, h, (omega arith, tt, (omega arith, tt, tt)))
members-MembersHaveBytes (outcome resource id disposition) h =
    (omega arith, h.0, (omega arith, tt, (omega arith, h.1, tt)))
members-MembersHaveBytes (delivery resource id none count sequence locked disposition) h = (
  omega arith,
  h.0,
  (
    omega arith,
    tt,
    (
      omega arith,
      tt,
      (omega arith, tt, (omega arith, h.2, (omega arith, h.3, (omega arith, h.4, tt)))),
    ),
  ),
)
members-MembersHaveBytes (delivery resource id (some t) count sequence locked disposition) h = (
  omega arith,
  h.0,
  (
    omega arith,
    tt,
    (
      omega arith,
      h.1,
      (omega arith, tt, (omega arith, h.2, (omega arith, h.3, (omega arith, h.4, tt)))),
    ),
  ),
)
members-MembersHaveBytes (unavailable disposition) h = (omega arith, h, tt)
members-MembersHaveBytes (drain drained) h = (omega arith, tt, tt)
members-MembersHaveBytes (receiver_closed reason detach error) h =
    (omega arith, h.0, (omega arith, tt, (omega arith, h.1, tt)))

-- `record` in `trace`, for one of the calls of Consumer.cpp.
abbrev pub line : Context → Event → Text
line c e = trace_record c.timestamp c.pid c.connection_id (event_name e) (event_fields e)

all_members-MembersHaveBytes :
    (c : Context) (e : Event)
    → AreBytes c.connection_id
    → EventHasBytes e
    → MembersHaveBytes (all_members c e)
all_members-MembersHaveBytes c e h k = (
  omega arith,
  tt,
  (
    omega arith,
    tt,
    (omega arith, h, (omega arith, event_name-AreBytes e, members-MembersHaveBytes e k)),
  ),
)

trace_line :
    (debug : Bool) (c : Context) (e : Event)
    → IsPrintable (line c e)
    → trace debug c.timestamp c.pid c.connection_id (event_name e) (event_fields e)
      ≡ (if debug then some (line c e ++ b'\n' ∷ []) else none)
unfolding trace
trace_line true c e p = rw (c_string-IsPrintable (line c e) p) refl
trace_line false c e p = refl

-- For every record that Consumer.cpp traces, whatever bytes its texts hold: with debug on exactly
-- its line is written, a line feed behind it, and nothing without debug; the line has no control
-- character, and a JSON reader reads it as the object of the time, the process, the connection, the
-- event and the record's own members. Each value is as the code had it, but for bytes of a string
-- that are not well-formed UTF-8, each of which is shown as the code point of its value.
pub line-IsRead :
    (c : Context) (e : Event)
    → AreBytes c.connection_id
    → EventHasBytes e
    → (write c (event_name e) (event_fields e)
        ≡ (if c.debug then some (line c e ++ b'\n' ∷ []) else none))
      × IsPrintable (line c e)
      × (read_object (line c e) ≡ some (all_seen (all_members c e)))
unfolding write
line-IsRead c e h k =
    let written = trace_record-object_text c e in
    let printable = subst IsPrintable (sym written) (
      object_text-IsPrintable (codes "timestampMs") (Json.number c.timestamp)
        (later_members c e)) in
    (
      trace_line c.debug c e printable,
      printable,
      ap read_object written
          ∙ read_object-object_text (codes "timestampMs") (Json.number c.timestamp)
              (later_members c e) (all_members-MembersHaveBytes c e h k),
    )
