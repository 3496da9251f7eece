-- ===== src/Producer/Cleanup.antt =====
-- Producer.cpp, `publish` as a whole: the loop, and what is released and thrown after it.
use azure_uamqp_php.Prelude.{
  ℕ, suc, ◌<◌, ◌≡◌, refl, sym, subst, ap, ◌∙◌, true, false, ◌||◌, ◌==◌, ◌∷◌, not, Text, is_empty,
  if◌then◌else◌, Bool-cases, inl, inr,
}
use azure_uamqp_php.Runtime.Library.{Uamqp, Handle, Thrown}
use azure_uamqp_php.Runtime.State.{
  Connection, System, M, Outcome, returned, raised, stuck, continue_with, destroyed, when, raise,
}
use azure_uamqp_php.Consumer.Closing.{destroy}
use azure_uamqp_php.Consumer.Dispatching.{do_work}
use azure_uamqp_php.Connection.Lifecycle.{close}
use azure_uamqp_php.Connection.Release.{is_released, released_log, close-released, close-producer}
use azure_uamqp_php.Connection.Reentrancy.{nested, php_work}
use azure_uamqp_php.Connection.Methods.{php_call}
use azure_uamqp_php.Producer.Publishing.{wait, finish, send, unsent}
use azure_uamqp_php.Producer.Waiting.{IsIdle, Returns}
use azure_uamqp_php.Producer.Ending.{Completes, IsAnswered, wait-IsAnswered}

-- The text is thrown, if there is any.
abbrev pub thrown_if : Text → Outcome (Unit {0})
thrown_if text = if is_empty text then returned tt else raised (Thrown.extension text)

-- After the loop has ended in `t`: the sender and its link are destroyed, then all that the
-- connection holds, and the text of the detach is thrown at the end.
pub record IsCleaned {L : Type 0} (t : System L) (x : Outcome (Unit {0}) × System L) : Type 0 where
  pub outcome : x.0 ≡ thrown_if t.producer.exception_message
  pub released : is_released x.1.connection ≡ true
  pub log :
      x.1.log
      ≡ released_log t.connection
          (destroyed Handle.sender_link ∷ destroyed Handle.message_sender ∷ t.log)

module _ {L : Type 0} (api : Uamqp L) where
  abbrev destroyed_sender : System L → System L
  destroyed_sender t = record t {
    library = api.destroy Handle.sender_link (api.destroy Handle.message_sender t.library);
    log = destroyed Handle.sender_link ∷ destroyed Handle.message_sender ∷ t.log;
  }

  abbrev raise_text : Outcome (Unit {0}) × System L → Outcome (Unit {0}) × System L
  raise_text = continue_with (λ _ s.
      when (not (is_empty s.producer.exception_message))
        (raise (Thrown.extension s.producer.exception_message)) s)

  finish-closes :
      (work : M L (Unit {0})) (t : System L)
      → finish api work t ≡ raise_text (close api work (destroyed_sender t))
  unfolding finish destroy
  finish-closes work t = refl

  raise_text-thrown :
      (s : System L) (y : Unit {0})
      → raise_text (returned y, s) ≡ (thrown_if s.producer.exception_message, s)
  raise_text-thrown s y = elim (Bool-cases (is_empty s.producer.exception_message)) [
    | inl e ↦ rw e refl
    | inr e ↦ rw e refl
  ]

  raise_text-IsCleaned :
      (t : System L) (x : Outcome (Unit {0}) × System L)
      → x.0 ≡ returned tt
      → x.1.producer ≡ t.producer
      → is_released x.1.connection ≡ true
      → x.1.log
        ≡ released_log t.connection
            (destroyed Handle.sender_link ∷ destroyed Handle.message_sender ∷ t.log)
      → IsCleaned t (raise_text x)
  raise_text-IsCleaned t (returned y, s) e p r l =
      subst (IsCleaned t) (sym (raise_text-thrown s y))
        (record { outcome = ap (λ q. thrown_if q.exception_message) p; released = r; log = l })
  raise_text-IsCleaned t (raised y, s) e p r l = cc
  raise_text-IsCleaned t (stuck, s) e p r l = cc

  idle-free :
      (c : Connection)
      → c.doing_work ≡ false
      → IsIdle c
      → (c.doing_work || c.receiver_run_active || c.closing) ≡ false
  idle-free c free i = simp (free, i.inactive, i.not_closing)

  finish-IsCleaned :
      (work : M L (Unit {0})) (t : System L)
      → t.connection.doing_work ≡ false
      → IsIdle t.connection
      → IsCleaned t (finish api work t)
  finish-IsCleaned work t free i =
      let d = destroyed_sender t in
      let busy = idle-free t.connection free i in
      let (shut, (released, log)) = close-released api work d i.alone busy in
      subst (IsCleaned t) (sym (finish-closes work t)) (
        raise_text-IsCleaned t (close api work d) shut (close-producer api work d i.alone busy)
          released log)

  -- The library after the message is handed to it.
  abbrev pub after_send : L → L
  after_send l = (api.messagesender_send_async (api.messagesender_open l).1).1

  abbrev started : System L → System L
  started s = record s { producer = unsent; library = after_send s.library }

  send-waits :
      (work : M L (Unit {0})) (n : ℕ) (s : System L)
      → (api.messagesender_open s.library).0 ≡ true
      → send api work n s ≡ continue_with (λ _. finish api work) (wait api work n (started s))
  unfolding send
  send-waits work n s opened = rw opened refl

  -- What `publish` comes to: its loop ends in a state `t`, with the message answered or its link
  -- detached, and then everything is cleaned up.
  abbrev pub IsPublished : M L (Unit {0}) → ℕ → System L → Type 0
  IsPublished work n s =
      (t : System L) × (wait api work n (started s) ≡ (returned tt, t))
      × ((t.producer.sent_messages == 1 || t.producer.stop_running) ≡ true)
      × IsCleaned t (send api work n s)

  published :
      (work : M L (Unit {0})) (n : ℕ) (s : System L) (x : Outcome (Unit {0}) × System L)
      → (api.messagesender_open s.library).0 ≡ true
      → wait api work n (started s) ≡ x
      → Returns IsAnswered x
      → IsPublished work n s
  published work n s (returned y, t) opened e (free, idle, answered) =
      let whole = send-waits work n s opened ∙ ap (continue_with (λ _. finish api work)) e in
      (t, e, answered, subst (IsCleaned t) (sym whole) (finish-IsCleaned work t free idle))
  published work n s (raised y, t) opened e a = absurd a
  published work n s (stuck, t) opened e a = absurd a

-- For a connection without a consumer, on which nothing else is going on, when the sender opens and every
-- dispatch brings the message nearer to its answer: the loop of `publish` ends within the
-- dispatches that are left, with the message answered or its link detached; then the sender, its
-- link and all that the connection holds are destroyed; and after that the text of a
-- detach is thrown, and nothing if there is none.
pub send-IsPublished :
    {L : Type 0} (api : Uamqp L) (completes : Completes api) (depth n : ℕ) (s : System L)
    → s.connection.doing_work ≡ false
    → IsIdle s.connection
    → (api.messagesender_open s.library).0 ≡ true
    → 0 < completes.left (after_send api s.library)
    → completes.left (after_send api s.library) < n
    → IsPublished api (do_work (php_call api (suc depth)) api) n s
send-IsPublished {L} api completes depth n s free idle opened some_left enough =
    subst (λ (w : M L (Unit {0})). IsPublished api w n s) (sym (php_work api depth))
      (published api (do_work nested api) n s (wait api (do_work nested api) n (started api s))
        opened refl
        (wait-IsAnswered api completes n (started api s) (free, (idle, refl), some_left, enough)))
