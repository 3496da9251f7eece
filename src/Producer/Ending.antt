-- ===== src/Producer/Ending.antt =====
-- Producer.cpp: how the loop of `publish` ends.
use azure_uamqp_php.Prelude.{
  ℕ, zero, suc, ◌<◌, ◌≡◌, refl, true, false, ◌||◌, ◌==◌, arith, Bool-cases, inl, inr, if◌then◌else◌,
}
use azure_uamqp_php.Runtime.Library.{Uamqp}
use azure_uamqp_php.Runtime.State.{
  System, M, Outcome, returned, raised, stuck, continue_with, caught_with, change_connection, raise,
  pure, ◌>>◌,
}
use azure_uamqp_php.Consumer.Dispatching.{dispatch, do_work}
use azure_uamqp_php.Connection.Reentrancy.{nested}
use azure_uamqp_php.Producer.Publishing.{wait}
use azure_uamqp_php.Producer.Waiting.{
  Phase, waiting, Nears, Stays, After, IsIdle, Returns, Returns-continue, dispatch-After,
}

-- The loop has ended: the message was answered, or its link is detached.
abbrev pub IsAnswered : {L : Type 0} → System L → Type 0
IsAnswered s =
    (s.connection.doing_work ≡ false)
    × IsIdle s.connection
    × ((s.producer.sent_messages == 1 || s.producer.stop_running) ≡ true)

module _ {L : Type 0} (api : Uamqp L) where
  -- Every message that is being sent comes nearer to its answer by each dispatch: `left` is how many
  -- dispatches are left at most, and 0 when no message is being sent.
  pub record Completes : Type 0 where
    pub left : L → ℕ
    pub nears : (l : L) → 0 < left l → Nears left waiting (left l) (api.dowork l)

  module _ (completes : Completes) where
    abbrev pub work : M L (Unit {0})
    work = do_work nested api

    abbrev working : System L → System L
    working s = record s { connection = record s.connection { doing_work = true } }

    do_work-dispatches :
        (s : System L)
        → s.connection.doing_work ≡ false
        → s.connection.connection ≡ true
        → work s
          ≡ continue_with
              (λ _. change_connection (λ c. record c { doing_work = false }))
              (caught_with
                (λ e. change_connection (λ c. record c { doing_work = false }) >> raise e)
                (dispatch nested (api.dowork s.library) (working s)))
    unfolding do_work
    do_work-dispatches s free connected = simp (free, connected)

    abbrev Worked : ℕ → System L → Type 0
    Worked t s = (s.connection.doing_work ≡ false) × After completes.left t s

    stopped-Worked :
        (t : ℕ) (x : Outcome (Unit {0}) × System L)
        → Returns (After completes.left t) x
        → Returns (Worked t) (
            continue_with
              (λ _. change_connection (λ c. record c { doing_work = false }))
              (caught_with
                (λ e. change_connection (λ c. record c { doing_work = false }) >> raise e)
                x))
    stopped-Worked t (returned y, s) (i, after) = (
      refl,
      (
        record {
          connected = i.connected;
          alone = i.alone;
          inactive = i.inactive;
          not_closing = i.not_closing;
        },
        after,
      ),
    )
    stopped-Worked t (raised e, s) a = absurd a
    stopped-Worked t (stuck, s) a = a

    work-Worked :
        (s : System L)
        → s.connection.doing_work ≡ false
        → Stays completes.left waiting s
        → 0 < completes.left s.library
        → Returns (Worked (completes.left s.library)) (work s)
    work-Worked s free (i, p) some_left = rw (do_work-dispatches s free i.connected) (
        stopped-Worked (completes.left s.library) _ (
          dispatch-After completes.left waiting (completes.left s.library) (api.dowork s.library)
            (working s) (completes.nears s.library some_left)
            (
              record {
                connected = i.connected;
                alone = i.alone;
                inactive = i.inactive;
                not_closing = i.not_closing;
              },
              p,
            )))

    -- The rest of a round, after `doWork`.
    abbrev next : ℕ → M L (Unit {0})
    next n t = (if t.producer.sent_messages == 1 then pure tt else wait api work n) t

    wait-stopped :
        (n : ℕ) (s : System L)
        → s.producer.stop_running ≡ true
        → wait api work (suc n) s ≡ (returned tt, s)
    unfolding wait
    wait-stopped n s e = simp e

    wait-going :
        (n : ℕ) (s : System L)
        → s.producer.stop_running ≡ false
        → wait api work (suc n) s ≡ continue_with (λ _. next n) (work s)
    unfolding wait
    wait-going n s e = simp e

    answered-end :
        (s : System L)
        → s.producer.sent_messages ≡ 1
        → (s.producer.sent_messages == 1 || s.producer.stop_running) ≡ true
    answered-end s e = ground arith

    stopped-end :
        (s : System L)
        → s.producer.stop_running ≡ true
        → (s.producer.sent_messages == 1 || s.producer.stop_running) ≡ true
    stopped-end s e = ground arith

    -- What the loop needs of the library, and of the state that a round starts in.
    abbrev pub Goes : ℕ → System L → Type 0
    Goes n s =
        (s.connection.doing_work ≡ false)
        × Stays completes.left waiting s
        × (0 < completes.left s.library)
        × (completes.left s.library < n)

    next-again :
        (n : ℕ) (s : System L)
        → (s.producer.sent_messages == 1) ≡ false
        → next n s ≡ wait api work n s
    next-again n s e = simp e

    next-ended :
        (n : ℕ) (s : System L)
        → (s.producer.sent_messages == 1) ≡ true
        → next n s ≡ (returned tt, s)
    next-ended n s e = simp e

    next-IsAnswered :
        (n t : ℕ) (s : System L)
        → 0 < t
        → t < suc n
        → Worked t s
        → ((s' : System L) → Goes n s' → Returns IsAnswered (wait api work n s'))
        → Returns IsAnswered (next n s)
    next-IsAnswered n t s a b (free, (idle, (Phase.waiting, unsent, near))) rest =
        rw (next-again n s (ground (arith, unsent)))
          (rest s (free, (idle, unsent), near.0, omega arith))
    next-IsAnswered n t s a b (free, (idle, (Phase.completed, sent, near))) rest =
        rw (next-ended n s (ground (arith, sent))) (free, idle, answered-end s sent)
    next-IsAnswered zero t s a b (free, (idle, (Phase.detached, stop, near))) rest =
        absurd (omega arith)
    next-IsAnswered (suc n) t s a b (free, (idle, (Phase.detached, stop, near))) rest =
        elim (Bool-cases (s.producer.sent_messages == 1)) [
          | inl e ↦ rw (next-ended (suc n) s e) (free, idle, stopped-end s stop)
          | inr e ↦
              rw (next-again (suc n) s e)
                (rw (wait-stopped n s stop) (free, idle, stopped-end s stop))
        ]

    pub wait-IsAnswered : (n : ℕ) (s : System L) → Goes n s → Returns IsAnswered (wait api work n s)
    wait-IsAnswered zero s (free, i, some_left, h) = absurd (omega arith)
    wait-IsAnswered (suc n) s (free, i, some_left, h) = elim (Bool-cases s.producer.stop_running) [
      | inl e ↦ rw (wait-stopped n s e) (free, i.0, stopped-end s e)
      | inr e ↦ rw (wait-going n s e) (
          Returns-continue IsAnswered (work s) (λ _. next n) (work-Worked s free i some_left)
            (λ _ t w.
              next-IsAnswered n (completes.left s.library) t some_left h w (wait-IsAnswered n)))
    ]
