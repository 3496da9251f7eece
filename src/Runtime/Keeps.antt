-- ===== src/Runtime/Keeps.antt =====
-- The monad of the methods: what every part of a method keeps, the method keeps, however it ends.
use azure_uamqp_php.Prelude.{Bool, true, false, if◌then◌else◌}
use azure_uamqp_php.Runtime.Library.{Thrown}
use azure_uamqp_php.Runtime.State.{
  System, Outcome, returned, raised, stuck, M, ◌>>=◌, ◌>>◌, continue_with, caught_with, try_catch,
  when, pure, raise, gets,
}

module _ {L : Type 0} (P : System L → Type 0) where
  pub data Keeps {A : Type 0} (m : M L A) : Type 0 where
    keeps : ((s : System L) → P s → P (m s).1) → Keeps m

  pub kept : {A : Type 0} {m : M L A} → Keeps m → (s : System L) → P s → P (m s).1
  kept (keeps f) = f

  pub Keeps-bind :
      {A B : Type 0} {m : M L A} {f : A → M L B}
      → Keeps m
      → ((a : A) → Keeps (f a))
      → Keeps (m >>= f)
  Keeps-bind {A} {B} {m} {f} k l = keeps (λ s p. go (m s) (kept k s p))
    where
      go : (x : Outcome A × System L) → P x.1 → P (continue_with f x).1
      go (returned a, t) q = kept (l a) t q
      go (raised e, t) q = q
      go (stuck, t) q = q

  pub Keeps-then :
      {B : Type 0} {m : M L (Unit {0})} {k : M L B} → Keeps m → Keeps k → Keeps (m >> k)
  Keeps-then k l = Keeps-bind k (λ _. l)

  pub Keeps-catch :
      {A : Type 0} {m : M L A} {h : Thrown → M L A}
      → Keeps m
      → ((e : Thrown) → Keeps (h e))
      → Keeps (try_catch m h)
  Keeps-catch {A} {m} {h} k l = keeps (λ s p. go (m s) (kept k s p))
    where
      go : (x : Outcome A × System L) → P x.1 → P (caught_with h x).1
      go (returned a, t) q = q
      go (raised e, t) q = kept (l e) t q
      go (stuck, t) q = q

  pub Keeps-pure : {A : Type 0} (a : A) → Keeps (pure a)
  Keeps-pure a = keeps (λ s p. p)

  pub Keeps-raise : {A : Type 0} (e : Thrown) → Keeps (raise {A = A} e)
  Keeps-raise e = keeps (λ s p. p)

  pub Keeps-gets : {A : Type 0} (f : System L → A) → Keeps (gets f)
  Keeps-gets f = keeps (λ s p. p)

  pub Keeps-when : (b : Bool) {m : M L (Unit {0})} → Keeps m → Keeps (when b m)
  Keeps-when true k = k
  Keeps-when false k = Keeps-pure tt

  pub Keeps-if :
      {A : Type 0} (b : Bool) {m k : M L A} → Keeps m → Keeps k → Keeps (if b then m else k)
  Keeps-if true k l = k
  Keeps-if false k l = l
