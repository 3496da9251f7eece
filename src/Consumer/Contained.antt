-- ===== src/Consumer/Contained.antt =====
-- Consumer.cpp, `onMessage`: exceptions and the C library.
use azure_uamqp_php.Prelude.{◌≡◌, refl, Bool, true, false}
use azure_uamqp_php.Runtime.Library.{Call, Delivery}
use azure_uamqp_php.Runtime.State.{System, Outcome, returned, raised, stuck, M}
use azure_uamqp_php.Consumer.Dispatching.{on_message, run_php}
use azure_uamqp_php.Consumer.Answering.{with_credit_used, finish, on_message-cases}

abbrev pub is_raised : {A : Type 0} → Outcome A → Bool
is_raised (raised e) = true
is_raised _ = false

finish-contained : {L : Type 0} (x : Outcome Bool × System L) → is_raised (finish x).0 ≡ false
unfolding finish
finish-contained (returned stop, s) = refl
finish-contained (raised e, s) = refl
finish-contained (stuck, s) = refl

-- `onMessage` raises nothing, whatever the message, the state and the calls that PHP code makes are:
-- no exception unwinds through the frames of the C library.
pub on_message-contained :
    {L : Type 0} (call : Call → M L Bool) (d : Delivery) (s : System L)
    → is_raised (on_message call d s).0 ≡ false
on_message-contained call d s =
    on_message-cases call d s (λ x. is_raised x.0 ≡ false) (λ h. refl) (λ h e. refl)
      (λ h. finish-contained (run_php call d.run (with_credit_used s)))
