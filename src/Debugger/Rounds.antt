-- ===== src/Debugger/Rounds.antt =====
-- debugging/subscription_consumer.cpp: how the receive loop ends.
use azure_uamqp_php.Prelude.{ℕ, ◌+◌, ◌≤◌, ◌≡◌, Bool, false, ◌||◌, Option, some, List, [], ◌∷◌, leb}
use azure_uamqp_php.Debugger.Receiving.{
  Watch, handle_all, DebugApi, goes_on, Step, Resource, created,
}

-- The clock is steady, and a sleep takes at least as long as it is told to.
pub record IsSteady {L : Type 0} (api : DebugApi L) : Type 0 where
  pub dowork_now : (l : L) → api.now l ≤ api.now (api.dowork l).1
  pub sleep_now : (n : ℕ) (l : L) → api.now l + n ≤ api.now (api.sleep n l)

-- The program stops as soon as it has its messages, and for no other reason.
pub record IsCounted (count : ℕ) (w : Watch) : Type 0 where
  pub target : w.target_count ≡ count
  pub counted : w.stopped ≡ leb count w.received

module _ {L : Type 0} (api : DebugApi L) (steady : IsSteady api) (count deadline : ℕ) where
  abbrev pub HasEnded : Option (Watch × L) → Type 0
  HasEnded r =
      (w : Watch) × (l : L) × (r ≡ some (w, l))
      × IsCounted count w
      × (goes_on api count deadline w l ≡ false)

  abbrev next_watch : Watch → L → Watch
  next_watch w l = handle_all (api.dowork l).0 w

  abbrev next_library : L → L
  next_library l = api.sleep 100 (api.dowork l).1

-- Why the loop ended, if the messages are not there.
abbrev pub has_reason : ℕ → ℕ → Watch → ℕ → Bool
has_reason count deadline w now =
    leb count w.received || (w.io_error || (w.link_error || leb deadline now))

-- The log of creating all of them, the latest first.
abbrev pub all_created : List Resource → List Step → List Step
all_created [] log = log
all_created (r ∷ rs) log = all_created rs (created r ∷ log)
