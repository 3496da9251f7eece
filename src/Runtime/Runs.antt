-- ===== src/Runtime/Runs.antt =====
-- The monad of the methods: what ends, from one condition on the state to another.
use azure_uamqp_php.Prelude.{Bool, true, false, if◌then◌else◌}
use azure_uamqp_php.Runtime.Library.{Thrown}
use azure_uamqp_php.Runtime.State.{
  System, Outcome, returned, raised, stuck, M, ◌>>=◌, ◌>>◌, continue_with, caught_with, try_catch,
  when, pure, gets,
}

-- The outcome is not `stuck`, and a value is returned in a state with `Q`.
abbrev pub Ran : {L A : Type 0} → (System L → Type 0) → Outcome A × System L → Type 0
Ran Q (returned a, s) = Q s
Ran Q (raised e, s) = Unit
Ran Q (stuck, s) = ⊥

abbrev pub Anywhere : {L : Type 0} → System L → Type 0
Anywhere s = Unit

pub data Runs {L A : Type 0} (P Q : System L → Type 0) (m : M L A) : Type 0 where
  runs : ((s : System L) → P s → Ran Q (m s)) → Runs P Q m

module _ {L : Type 0} where
  pub ran :
      {A : Type 0} {P Q : System L → Type 0} {m : M L A}
      → Runs P Q m
      → (s : System L) → P s
      → Ran Q (m s)
  ran (runs f) = f

  Ran-continue :
      {Q R : System L → Type 0} {A B : Type 0} (x : Outcome A × System L) {f : A → M L B}
      → Ran Q x
      → ((a : A) → Runs Q R (f a))
      → Ran R (continue_with f x)
  Ran-continue (returned a, t) q l = ran (l a) t q
  Ran-continue (raised e, t) q l = tt
  Ran-continue (stuck, t) q l = q

  Ran-catch :
      {Q : System L → Type 0} {A : Type 0} (x : Outcome A × System L) {h : Thrown → M L A}
      → Ran Q x
      → ((e : Thrown) → Runs Anywhere Q (h e))
      → Ran Q (caught_with h x)
  Ran-catch (returned a, t) q l = q
  Ran-catch (raised e, t) q l = ran (l e) t tt
  Ran-catch (stuck, t) q l = q

  pub Ran-weaken :
      {Q : System L → Type 0} {A : Type 0} {P' : System L → Type 0} (x : Outcome A × System L)
      → ((s : System L) → Q s → P' s)
      → Ran Q x
      → Ran P' x
  Ran-weaken (returned a, t) w q = w t q
  Ran-weaken (raised e, t) w q = q
  Ran-weaken (stuck, t) w q = q

  module _ {P Q R : System L → Type 0} where
    pub Runs-bind :
        {A B : Type 0} {m : M L A} {f : A → M L B}
        → Runs P Q m
        → ((a : A) → Runs Q R (f a))
        → Runs P R (m >>= f)
    Runs-bind {m = m} k l = runs (λ s p. Ran-continue (m s) (ran k s p) l)

    pub Runs-then :
        {B : Type 0} {m : M L (Unit {0})} {k : M L B} → Runs P Q m → Runs Q R k → Runs P R (m >> k)
    Runs-then k l = Runs-bind k (λ _. l)

  module _ {P Q : System L → Type 0} where
    pub Runs-catch :
        {A : Type 0} {m : M L A} {h : Thrown → M L A}
        → Runs P Q m
        → ((e : Thrown) → Runs Anywhere Q (h e))
        → Runs P Q (try_catch m h)
    Runs-catch {m = m} k l = runs (λ s p. Ran-catch (m s) (ran k s p) l)

    pub Runs-if :
        {A : Type 0} (b : Bool) {m k : M L A}
        → Runs P Q m
        → Runs P Q k
        → Runs P Q (if b then m else k)
    Runs-if true k l = k
    Runs-if false k l = l

    pub Runs-weaken :
        {A : Type 0} {P' : System L → Type 0} {m : M L A}
        → ((s : System L) → Q s → P' s)
        → Runs P Q m
        → Runs P P' m
    Runs-weaken {m = m} w k = runs (λ s p. Ran-weaken (m s) w (ran k s p))

  pub Runs-when :
      {P : System L → Type 0} (b : Bool) {m : M L (Unit {0})} → Runs P P m → Runs P P (when b m)
  Runs-when true k = k
  Runs-when false k = runs (λ s p. p)

  -- What leaves the condition alone.
  module _ (P : System L → Type 0) where
    pub Runs-gets : {A : Type 0} (f : System L → A) → Runs P P (gets f)
    Runs-gets f = runs (λ s p. p)

    pub Runs-pure : {A : Type 0} (a : A) → Runs P P (pure a)
    Runs-pure a = runs (λ s p. p)
