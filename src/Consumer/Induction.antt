-- ===== src/Consumer/Induction.antt =====
-- Consumer.cpp: what each callback keeps, a dispatch keeps.
use azure_uamqp_php.Prelude.{Bool, ◌∷◌, Option, Text}
use azure_uamqp_php.Runtime.Library.{
  Disposition, Call, Delivery, Dispatch, done, message, detach, receiver_state, io_error,
  send_complete, sender_detach, SendResult, ReceiverState, PhpRun, returns, throws, calls, Reply,
  answer, failure,
}
use azure_uamqp_php.Runtime.State.{
  System, Outcome, returned, raised, stuck, M, settled, continue_with,
}
use azure_uamqp_php.Consumer.Handlers.{handle_link_detach, handle_receiver_state}
use azure_uamqp_php.Consumer.Dispatching.{
  on_message, dispatch, handle_io_error, run_php, reply_with,
}
use azure_uamqp_php.Producer.Handlers.{on_message_send_complete, on_link_detach_received}

module _ {L : Type 0} where
  -- The state after a message, with its answer.
  abbrev pub answered : Outcome Disposition × System L → System L
  answered (returned x, s) = record s { log = settled x ∷ s.log }
  answered (raised e, s) = s
  answered (stuck, s) = s

  module _ (call : Call → M L Bool) (P : System L → Type 0) where
    -- A condition that every call of PHP code keeps is kept by the whole run of it.
    pub run_php-keeps :
        ((c : Call) (s : System L) → P s → P (call c s).1)
        → (run : PhpRun) (s : System L) → P s
        → P (run_php call run s).1
    unfolding run_php
    run_php-keeps keep (returns b) s p = p
    run_php-keeps keep (throws e) s p = p
    run_php-keeps keep (calls c next) s p =
        go (call c s) (keep c s p) (λ r s' p'. run_php-keeps keep (next r) s' p')
      where
        go :
            (x : Outcome Bool × System L)
            → P x.1
            → ((r : Reply) (s' : System L) → P s' → P (run_php call (next r) s').1)
            → P (reply_with (λ r. run_php call (next r)) x).1
        go (returned b, s') q ih = ih (answer b) s' q
        go (raised e, s') q ih = ih (failure e) s' q
        go (stuck, s') q ih = q

    -- What each callback keeps.
    pub record IsKept : Type 0 where
      pub by_message : (d : Delivery) (s : System L) → P s → P (answered (on_message call d s))
      pub by_detach :
          (e : Option (Option Text × Option Text)) (s : System L)
          → P s
          → P (record s { consumer = handle_link_detach e s.consumer })
      pub by_state :
          (x : ReceiverState) (s : System L)
          → P s
          → P (record s { consumer = handle_receiver_state x s.consumer })
      pub by_io_error : (s : System L) → P s → P (handle_io_error call s).1
      pub by_send_complete :
          (r : SendResult) (s : System L)
          → P s
          → P (record s { producer = on_message_send_complete r s.producer })
      pub by_sender_detach :
          (c d : Text) (s : System L)
          → P s
          → P (record s { producer = on_link_detach_received c d s.producer })
      pub by_library : (l : L) (s : System L) → P s → P (record s { library = l })

    pub dispatch-keeps : IsKept → (d : Dispatch L) (s : System L) → P s → P (dispatch call d s).1
    unfolding dispatch handle_io_error
    dispatch-keeps k (done l) s p = k.by_library l s p
    dispatch-keeps k (message d next) s p =
        go (on_message call d s) (k.by_message d s p) (λ x s' p'. dispatch-keeps k (next x) s' p')
      where
        go :
            (x : Outcome Disposition × System L)
            → P (answered x)
            → ((y : Disposition) (s' : System L) → P s' → P (dispatch call (next y) s').1)
            → P
                (continue_with
                  (λ y s'. dispatch call (next y) (record s' { log = settled y ∷ s'.log }))
                  x).1
        go (returned y, s') q ih = ih y _ q
        go (raised e, s') q ih = q
        go (stuck, s') q ih = q
    dispatch-keeps k (detach e next) s p = dispatch-keeps k next _ (k.by_detach e s p)
    dispatch-keeps k (send_complete r next) s p = dispatch-keeps k next _ (k.by_send_complete r s p)
    dispatch-keeps k (sender_detach c d next) s p =
        dispatch-keeps k next _ (k.by_sender_detach c d s p)
    dispatch-keeps k (receiver_state x next) s p = dispatch-keeps k next _ (k.by_state x s p)
    dispatch-keeps k (io_error next) s p =
        go (handle_io_error call s) (k.by_io_error s p) (λ s' p'. dispatch-keeps k next s' p')
      where
        go :
            (x : Outcome (Unit {0}) × System L)
            → P x.1
            → ((s' : System L) → P s' → P (dispatch call next s').1)
            → P (continue_with (λ _. dispatch call next) x).1
        go (returned y, s') q ih = ih s' q
        go (raised e, s') q ih = q
        go (stuck, s') q ih = q
