-- ===== src/Producer/Waiting.antt =====
-- Producer.cpp, the loop of `publish`: what one dispatch does to it.
use azure_uamqp_php.Prelude.{ℕ, ◌<◌, ◌≡◌, refl, Bool, true, false, ◌∷◌, arith}
use azure_uamqp_php.Runtime.Library.{
  Disposition, Delivery, Dispatch, SendResult, done, message, detach, receiver_state, io_error,
  send_complete, sender_detach, Call, close_call, consume_call, was_close_requested_call,
  set_callback_call,
}
use azure_uamqp_php.Runtime.State.{
  Connection, Producer, System, M, Outcome, returned, raised, stuck, continue_with, settled,
}
use azure_uamqp_php.Consumer.Dispatching.{dispatch, on_message, handle_io_error}
use azure_uamqp_php.Consumer.Answering.{with_credit_used, finish, on_message-cases}
use azure_uamqp_php.Consumer.Induction.{run_php-keeps}
use azure_uamqp_php.Connection.Reentrancy.{nested}
use azure_uamqp_php.Connection.Batch.{run_php-ends, ends}
use azure_uamqp_php.Producer.Handlers.{on_message_send_complete, on_link_detach_received}

-- How far a message is that is being sent: neither answered nor refused, answered once, or its link
-- is detached.
pub data Phase : Type 0 where
  waiting completed detached : Phase

abbrev pub AllowsSend : Phase → Type 0
AllowsSend waiting = Unit {0}
AllowsSend completed = ⊥
AllowsSend detached = Unit {0}

abbrev pub sent_phase : Phase → Phase
sent_phase detached = detached
sent_phase _ = completed

abbrev pub In : Phase → Producer → Type 0
In waiting p = p.sent_messages ≡ 0
In completed p = p.sent_messages ≡ 1
In detached p = p.stop_running ≡ true

-- A connection without a consumer, on which nothing else is going on.
pub record IsIdle (c : Connection) : Type 0 where
  pub connected : c.connection ≡ true
  pub alone : c.consumer ≡ false
  pub inactive : c.receiver_run_active ≡ false
  pub not_closing : c.closing ≡ false

send_complete-In :
    (p : Phase) (r : SendResult) (x : Producer)
    → AllowsSend p
    → In p x
    → In (sent_phase p) (on_message_send_complete r x)
unfolding on_message_send_complete
send_complete-In waiting r x a i = ground (arith, i)
send_complete-In completed r x a i = absurd a
send_complete-In detached r x a i = i

-- A value is returned, in a state with `Q`.
abbrev pub Returns : {L A : Type 0} → (System L → Type 0) → Outcome A × System L → Type 0
Returns Q (returned a, s) = Q s
Returns Q (raised e, s) = ⊥
Returns Q (stuck, s) = ⊥

pub Returns-continue :
    {L A B : Type 0} {Q : System L → Type 0} (R : System L → Type 0) (x : Outcome A × System L)
    (f : A → M L B)
    → Returns Q x
    → ((a : A) (s : System L) → Q s → Returns R (f a s))
    → Returns R (continue_with f x)
Returns-continue R (returned a, t) f q l = l a t q
Returns-continue R (raised e, t) f q l = absurd q
Returns-continue R (stuck, t) f q l = absurd q

module _ {L : Type 0} (left : L → ℕ) where
  -- The library's state at the end of a dispatch: if the message is still waiting, fewer than `t`
  -- dispatches are left.
  abbrev pub Near : Phase → ℕ → L → Type 0
  Near waiting t l = (0 < left l) × (left l < t)
  Near completed t l = Unit {0}
  Near detached t l = Unit {0}

  -- The same, wherever the dispatch ends; the message is answered once at most before a detach.
  abbrev pub Nears : Phase → ℕ → Dispatch L → Type 0
  Nears p t (done l) = Near p t l
  Nears p t (message d next) = (x : Disposition) → Nears p t (next x)
  Nears p t (detach e next) = Nears p t next
  Nears p t (receiver_state x next) = Nears p t next
  Nears p t (io_error next) = Nears p t next
  Nears p t (send_complete r next) = AllowsSend p × Nears (sent_phase p) t next
  Nears p t (sender_detach c d next) = Nears detached t next

  abbrev pub Stays : Phase → System L → Type 0
  Stays p s = IsIdle s.connection × In p s.producer

  -- After a dispatch the loop ends, or the message is waiting and nearer to its answer.
  abbrev pub After : ℕ → System L → Type 0
  After t s = IsIdle s.connection × ((p : Phase) × In p s.producer × Near p t s.library)

  nested-Stays : (p : Phase) (c : Call) (s : System L) → Stays p s → Stays p (nested c s).1
  unfolding nested
  nested-Stays p close_call s i = (
    record {
      connected = i.0.connected;
      alone = i.0.alone;
      inactive = i.0.inactive;
      not_closing = i.0.not_closing;
    },
    i.1,
  )
  nested-Stays p consume_call s i = i
  nested-Stays p was_close_requested_call s i = i
  nested-Stays p (set_callback_call credit loop) s i = i

  -- A message is answered, and the rest is as it was.
  abbrev IsAnswered : Phase → Outcome Disposition × System L → Type 0
  IsAnswered p (returned x, s) = Stays p s
  IsAnswered p (raised e, s) = ⊥
  IsAnswered p (stuck, s) = ⊥

  finish-IsAnswered :
      (p : Phase) (x : Outcome Bool × System L)
      → ends x.0 ≡ true
      → Stays p x.1
      → IsAnswered p (finish x)
  unfolding finish
  finish-IsAnswered p (returned stop, s) e i = i
  finish-IsAnswered p (raised x, s) e i = i
  finish-IsAnswered p (stuck, s) e i = cc

  on_message-IsAnswered :
      (p : Phase) (d : Delivery) (s : System L) → Stays p s → IsAnswered p (on_message nested d s)
  on_message-IsAnswered p d s i =
      on_message-cases nested d s (IsAnswered p) (λ h. i) (λ h e. i)
        (λ h.
          finish-IsAnswered p _ (run_php-ends d.run (with_credit_used s))
            (run_php-keeps nested (Stays p) (nested-Stays p) d.run (with_credit_used s) i))

  io_error-Stays :
      (p : Phase) (s : System L) → Stays p s → Returns (Stays p) (handle_io_error nested s)
  unfolding handle_io_error
  io_error-Stays p s i = rw i.0.alone (
    record {
      connected = i.0.connected;
      alone = refl;
      inactive = i.0.inactive;
      not_closing = i.0.not_closing;
    },
    i.1,
  )

  pub dispatch-After :
      (p : Phase) (t : ℕ) (d : Dispatch L) (s : System L)
      → Nears p t d
      → Stays p s
      → Returns (After t) (dispatch nested d s)
  unfolding dispatch handle_io_error on_link_detach_received
  dispatch-After p t (done l) s n i = (i.0, (p, i.1, n))
  dispatch-After p t (message d next) s n i =
      go (on_message nested d s) (on_message-IsAnswered p d s i)
        (λ x s' i'. dispatch-After p t (next x) s' (n x) i')
    where
      go :
          (x : Outcome Disposition × System L)
          → IsAnswered p x
          → ((y : Disposition) (s' : System L)
              → Stays p s'
              → Returns (After t) (dispatch nested (next y) s'))
          → Returns (After t) (
              continue_with
                (λ y s'. dispatch nested (next y) (record s' { log = settled y ∷ s'.log }))
                x)
      go (returned y, s') a ih = ih y _ a
      go (raised e, s') a ih = absurd a
      go (stuck, s') a ih = a
  dispatch-After p t (detach e next) s n i = dispatch-After p t next _ n i
  dispatch-After p t (receiver_state x next) s n i = dispatch-After p t next _ n i
  dispatch-After p t (io_error next) s n i =
      Returns-continue (After t) (handle_io_error nested s) (λ _. dispatch nested next)
        (io_error-Stays p s i) (λ _ s' j. dispatch-After p t next s' n j)
  dispatch-After p t (send_complete r next) s n i =
      dispatch-After (sent_phase p) t next _ n.1 (i.0, send_complete-In p r s.producer n.0 i.1)
  dispatch-After p t (sender_detach c d next) s n i = dispatch-After detached t next _ n (i.0, refl)
