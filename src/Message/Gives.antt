-- ===== src/Message/Gives.antt =====
-- The monad of the message's methods: conditions before and after a method, and at an error.
use azure_uamqp_php.Prelude.{Bool, true, false, not, Option, none, some, Text, Result, ok, err}
use azure_uamqp_php.Runtime.Library.{Thrown}
use azure_uamqp_php.Message.State.{
  Message, State, Run, continue_with, ◌>>=◌, pure, raise, gets, or_raise, when, must, change,
  checked, library_call,
}

-- `Q` where a value is returned, `E` where something is thrown.
abbrev pub Post : {S A : Type 0} → (S → Type 0) → (A → S → Type 0) → Result Thrown A × S → Type 0
Post E Q (ok a, s) = Q a s
Post E Q (err e, s) = E s

module _ {S : Type 0} (E : S → Type 0) where
  pub data Gives {A : Type 0} (P : S → Type 0) (m : Run S A) (Q : A → S → Type 0) : Type 0 where
    gives : ((s : S) → P s → Post E Q (m s)) → Gives P m Q

  pub given :
      {A : Type 0} {P : S → Type 0} {m : Run S A} {Q : A → S → Type 0}
      → Gives P m Q
      → (s : S) → P s
      → Post E Q (m s)
  given (gives f) = f

  pub Gives-bind :
      {A B : Type 0} {P : S → Type 0} {m : Run S A} {Q : A → S → Type 0} {f : A → Run S B}
      {R : B → S → Type 0}
      → Gives P m Q
      → ((a : A) → Gives (Q a) (f a) R)
      → Gives P (m >>= f) R
  Gives-bind {A} {B} {P} {m} {Q} {f} {R} k l = gives (λ s p. go (m s) (given k s p))
    where
      go : (x : Result Thrown A × S) → Post E Q x → Post E R (continue_with f x)
      go (ok a, t) q = given (l a) t q
      go (err e, t) q = q

  pub Gives-weaken :
      {A : Type 0} {P : S → Type 0} {m : Run S A} {Q R : A → S → Type 0}
      → Gives P m Q
      → ((a : A) (s : S) → Q a s → R a s)
      → Gives P m R
  Gives-weaken {A} {P} {m} {Q} {R} k weaker = gives (λ s p. go (m s) (given k s p))
    where
      go : (x : Result Thrown A × S) → Post E Q x → Post E R x
      go (ok a, t) q = weaker a t q
      go (err e, t) q = q

  module _ (P : S → Type 0) where
    pub Gives-pure : {A : Type 0} (a : A) → Gives P (pure a) (λ _. P)
    Gives-pure a = gives (λ s p. p)

    pub Gives-gets : {A : Type 0} (f : S → A) → Gives P (gets f) (λ _. P)
    Gives-gets f = gives (λ s p. p)

    module _ (weaker : (s : S) → P s → E s) where
      pub Gives-raise : {A : Type 0} (t : Text) → Gives P (raise {A = A} t) (λ _. P)
      Gives-raise t = gives weaker

      pub Gives-or_raise : {A : Type 0} (t : Text) (o : Option A) → Gives P (or_raise t o) (λ _. P)
      Gives-or_raise t none = gives weaker
      Gives-or_raise t (some a) = gives (λ s p. p)

      pub Gives-when :
          (b : Bool) {m : Run S (Unit {0})} → Gives P m (λ _. P) → Gives P (when b m) (λ _. P)
      Gives-when true k = k
      Gives-when false k = gives (λ s p. p)

      pub Gives-must :
          (t : Text) {m : Run S Bool} → Gives P m (λ _. P) → Gives P (must t m) (λ _. P)
      Gives-must t k = Gives-bind k (λ done. Gives-when (not done) (Gives-raise t))

module _ {L V P H : Type 0} (E Q : State L V P H → Type 0) where
  pub Gives-checked :
      {A : Type 0}
      → ((s : State L V P H) → Q s → E s)
      → (t : Text) (f : L → Option A) → Gives E Q (checked t f) (λ _. Q)
  Gives-checked {A} weaker t f = gives (λ s q. go s (f s.library) q)
    where
      go : (s : State L V P H) (o : Option A) → Q s → Post E (λ _. Q) (or_raise t o s)
      go s none q = weaker s q
      go s (some a) q = q

  pub Gives-library :
      {A : Type 0} (f : L → A × L)
      → ((s : State L V P H) (l : L) → Q s → Q (record s { library = l }))
      → Gives E Q (library_call f) (λ _. Q)
  Gives-library f same = gives (λ s q. same s (f s.library).1 q)

  pub Gives-change :
      (f : Message H → Message H)
      → ((s : State L V P H) → Q s → Q (record s { object = f s.object }))
      → Gives E Q (change f) (λ _. Q)
  Gives-change f same = gives same
