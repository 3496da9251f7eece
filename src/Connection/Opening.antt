-- ===== src/Connection/Opening.antt =====
-- Connection.cpp, `connect`: the handles that it creates, on every way out of it.
use azure_uamqp_php.Prelude.{
  ◌≡◌, Bool, true, false, not, ◌||◌, List, ◌∷◌, codes, if◌then◌else◌, Bool-cases, inl, inr, arith,
}
use azure_uamqp_php.Runtime.Library.{Thrown, Handle, Uamqp}
use azure_uamqp_php.Runtime.State.{
  Connection, System, Action, created, Outcome, returned, raised, stuck, M, ◌>>=◌, ◌>>◌,
  continue_with, when, raise, gets, change_connection,
}
use azure_uamqp_php.Consumer.Closing.{create}
use azure_uamqp_php.Connection.Lifecycle.{open_transport, open_sasl}

-- `Q`, whatever is returned or thrown.
abbrev pub Ends :
    {L A : Type 0} → (System L → Type 0) → (System L → Type 0) → Outcome A × System L → Type 0
Ends E Q (returned a, s) = Q s
Ends E Q (raised e, s) = E s
Ends E Q (stuck, s) = ⊥

pub data Leads {L A : Type 0} (E P Q : System L → Type 0) (m : M L A) : Type 0 where
  leads : ((s : System L) → P s → Ends E Q (m s)) → Leads E P Q m

module _ {L : Type 0} {E P Q : System L → Type 0} where
  pub led : {A : Type 0} {m : M L A} → Leads E P Q m → (s : System L) → P s → Ends E Q (m s)
  led (leads f) = f

module _ {L : Type 0} {E P Q R : System L → Type 0} where
  Leads-bind :
      {A B : Type 0} {m : M L A} {f : A → M L B}
      → Leads E P Q m
      → ((a : A) → Leads E Q R (f a))
      → Leads E P R (m >>= f)
  Leads-bind {A} {B} {m} {f} k l = leads (λ s p. go (m s) (led k s p))
    where
      go : (x : Outcome A × System L) → Ends E Q x → Ends E R (continue_with f x)
      go (returned a, t) q = led (l a) t q
      go (raised e, t) q = q
      go (stuck, t) q = q

abbrev pub created_if : Bool → Handle → List Action → List Action
created_if true h log = created h ∷ log
created_if false h log = log

-- The log of creating what `c` holds: the transport first.
abbrev pub created_log : Connection → List Action → List Action
created_log c log = created_if c.session Handle.session (
    created_if c.connection Handle.connection (
      created_if c.sasl_io Handle.sasl_io (
        created_if c.sasl_mechanism Handle.sasl_mechanism
          (created_if c.socket_io Handle.socket_io (created_if c.tls_io Handle.tls_io log)))))

module _ {L : Type 0} (api : Uamqp L) (base : List Action) where
  -- Which handles are not there yet.
  pub record Upto (transport mechanism io connection session : Bool) (s : System L) : Type 0 where
    pub logged : s.log ≡ created_log s.connection base
    pub alone : s.connection.consumer ≡ false
    pub idle :
        (s.connection.doing_work || s.connection.receiver_run_active || s.connection.closing)
        ≡ false
    pub no_tls : (transport || s.connection.tls_io) ≡ transport
    pub no_socket : (transport || s.connection.socket_io) ≡ transport
    pub no_mechanism : (mechanism || s.connection.sasl_mechanism) ≡ mechanism
    pub no_io : (io || s.connection.sasl_io) ≡ io
    pub no_connection : (connection || s.connection.connection) ≡ connection
    pub no_session : (session || s.connection.session) ≡ session

  abbrev pub All : System L → Type 0
  All s =
      (s.log ≡ created_log s.connection base)
      × (s.connection.consumer ≡ false)
      × ((s.connection.doing_work || s.connection.receiver_run_active || s.connection.closing)
          ≡ false)

  step :
      (h : Handle) (set : Bool → Connection → Connection) (P Q : System L → Type 0)
      → ((s : System L) (l : L)
          → P s
          → Q (record s {
            connection = set true s.connection;
            library = l;
            log = created h ∷ s.log;
          }))
      → ((s : System L) (l : L)
          → P s
          → Q (record s { connection = set false s.connection; library = l }))
      → Leads All P Q (create api h >>= λ made. change_connection (set made))
  unfolding create
  step h set P Q made none = leads (λ s p. elim (Bool-cases (api.create h s.library).0) [
    | inl e ↦ rw e (made s _ p)
    | inr e ↦ rw e (none s _ p)
  ])

  -- The same, with what comes after it.
  step-then :
      {A : Type 0} (h : Handle) (set : Bool → Connection → Connection) (P Q R : System L → Type 0)
      (k : Bool → M L A)
      → ((s : System L) (l : L)
          → P s
          → Q (record s {
            connection = set true s.connection;
            library = l;
            log = created h ∷ s.log;
          }))
      → ((s : System L) (l : L)
          → P s
          → Q (record s { connection = set false s.connection; library = l }))
      → ((b : Bool) → Leads All Q R (k b))
      → Leads All P R (create api h >>= λ made. change_connection (set made) >> k made)
  unfolding create
  step-then h set P Q R k made none next = leads (λ s p.
      elim (Bool-cases (api.create h s.library).0) [
        | inl e ↦ rw e (led (next true) _ (made s _ p))
        | inr e ↦ rw e (led (next false) _ (none s _ p))
      ])

  io-Leads :
      Leads All
        (Upto true true false false false)
        (Upto true true true false false)
        (create api Handle.sasl_io >>= λ made. change_connection (λ c. record c { sasl_io = made }))
  io-Leads =
      step Handle.sasl_io (λ b c. record c { sasl_io = b }) _ _ (λ s l p. ground (arith, p))
        (λ s l p. ground (arith, p))

  transport-Leads :
      (tls : Bool)
      → Leads All (Upto false false false false false) (Upto true false false false false) (
          create api (if tls then Handle.tls_io else Handle.socket_io) >>= λ made.
          change_connection
            (λ c. if tls then record c { tls_io = made } else record c { socket_io = made }))
  transport-Leads true =
      step Handle.tls_io (λ b c. record c { tls_io = b }) _ _ (λ s l p. ground (arith, p))
        (λ s l p. ground (arith, p))
  transport-Leads false =
      step Handle.socket_io (λ b c. record c { socket_io = b }) _ _ (λ s l p. ground (arith, p))
        (λ s l p. ground (arith, p))

  gets-Leads : {A : Type 0} (P : System L → Type 0) (f : System L → A) → Leads All P P (gets f)
  gets-Leads P f = leads (λ s p. p)

  open_transport-Leads :
      Leads All
        (Upto false false false false false)
        (Upto true false false false false)
        (open_transport api)
  unfolding open_transport
  open_transport-Leads =
      Leads-bind (gets-Leads (Upto false false false false false) (λ s. s.connection.use_tls))
        transport-Leads

  sasl-Leads :
      (auth : Bool)
      → Leads All
          (Upto true false false false false)
          (Upto true true true false false)
          (when auth (open_sasl api))
  unfolding open_sasl
  sasl-Leads true =
      step-then Handle.sasl_mechanism (λ b c. record c { sasl_mechanism = b })
        (Upto true false false false false) (Upto true true false false false)
        (Upto true true true false false)
        (λ _. create api Handle.sasl_io >>= λ made.
          change_connection (λ c. record c { sasl_io = made }))
        (λ s l p. ground (arith, p)) (λ s l p. ground (arith, p)) (λ b. io-Leads)
  sasl-Leads false = leads (λ s p. ground (arith, p))

  abbrev pub open_session : M L (Unit {0})
  open_session = create api Handle.session >>= λ session.
      when (not session) (raise (Thrown.extension (codes "Could not create session")))
      >> change_connection (λ c. record c { session = true; is_connected = true })

  session-Leads : Leads All (Upto true true true true false) All open_session
  unfolding create
  session-Leads = leads (λ s p. elim (Bool-cases (api.create Handle.session s.library).0) [
    | inl e ↦ rw e (ground (arith, p))
    | inr e ↦ rw e (ground (arith, p))
  ])

  checked-Leads :
      (made : Bool)
      → Leads All (Upto true true true true false) All (
          when (not made) (raise (Thrown.extension (codes "Could not create connection")))
          >> open_session)
  checked-Leads true = leads (λ s p. led session-Leads s p)
  checked-Leads false = leads (λ s p. (p.logged, p.alone, p.idle))

  -- From the transport on.
  abbrev pub open_all : M L (Unit {0})
  open_all =
      open_transport api
      >> (gets (λ s. s.connection.use_auth) >>= λ use_auth.
          when use_auth (open_sasl api)
          >> (create api Handle.connection >>= λ made.
              change_connection (λ c. record c { connection = made })
              >> (when (not made) (raise (Thrown.extension (codes "Could not create connection")))
                  >> open_session)))

  pub open_all-Leads : Leads All (Upto false false false false false) All open_all
  open_all-Leads = Leads-bind open_transport-Leads λ _.
      Leads-bind (gets-Leads (Upto true false false false false) (λ s. s.connection.use_auth))
        λ auth. Leads-bind (sasl-Leads auth) λ _.
          step-then Handle.connection (λ b c. record c { connection = b })
            (Upto true true true false false) (Upto true true true true false) All
            (λ made.
              when (not made) (raise (Thrown.extension (codes "Could not create connection")))
              >> open_session)
            (λ s l p. ground (arith, p)) (λ s l p. ground (arith, p)) checked-Leads
