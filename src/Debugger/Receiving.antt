-- ===== src/Debugger/Receiving.antt =====
-- debugging/subscription_consumer.cpp: the callbacks, the receive loop and the program's end.
use azure_uamqp_php.Prelude.{
  ℕ, zero, suc, ◌+◌, ◌*◌, Bool, true, false, not, ◌&&◌, Option, none, some, List, [], ◌∷◌, ◌++◌,
  Text, codes, ltb, leb, if◌then◌else◌,
}
use azure_uamqp_php.Runtime.Library.{ReceiverState}
use azure_uamqp_php.Message.Library.{BodyType}

-- `CONNECTION_STATE`, as far as it is told apart.
pub data ConnectionState : Type 0 where
  opened failed ended transition : ConnectionState

-- What the getters of a message answer: `none` where the code is not 0, and for a text where the
-- pointer is NULL.
pub record Received : Type 0 where
  pub body_type : Option BodyType
  pub data_sections : Option (List (Option Text))
  pub value_text : Option (Option Text)
  pub sequence_texts : Option (List (Option (Option Text)))

-- The callbacks that one dispatch makes.
pub data Event : Type 0 where
  connection_state : ConnectionState → Event
  io_failed : Event
  receiver_state : ReceiverState → Event
  detached : Option (Option Text × Option Text) → Event
  message : Received → Event

-- `struct State`; `output` is what was written to standard output.
pub record Watch : Type 0 where
  pub connection : ConnectionState
  pub receiver : ReceiverState
  pub io_error : Bool
  pub link_error : Bool
  pub stopped : Bool
  pub received : ℕ
  pub target_count : ℕ
  pub error : Text
  pub output : Text

abbrev pub start : ℕ → Watch
start count = record {
  connection = transition;
  receiver = ReceiverState.idle;
  io_error = false;
  link_error = false;
  stopped = false;
  received = 0;
  target_count = count;
  error = [];
  output = [];
}

abbrev pub or_text : Text → Option Text → Text
or_text t none = t
or_text t (some u) = u

unfoldable pub detach_text : Option (Option Text × Option Text) → Text
detach_text none = codes "receiver link detached: unknown "
detach_text (some (condition, description)) =
    codes "receiver link detached: "
    ++ (or_text (codes "unknown") condition ++ (codes " " ++ or_text [] description))

abbrev pub sections : List (Option Text) → Text
sections [] = []
sections (none ∷ rest) = sections rest
sections (some t ∷ rest) = t ++ sections rest

abbrev pub sequences : List (Option (Option Text)) → Text
sequences [] = []
sequences (none ∷ rest) = sequences rest
sequences (some t ∷ rest) = or_text (codes "<unavailable>") t ++ sequences rest

abbrev pub body_line : Text → Text
body_line t = codes "[message] body: " ++ (t ++ codes "\n")

-- What `onMessage` writes to standard output.
unfoldable pub body_output : Received → Text
body_output m = elim m.body_type [
  | none ↦ []
  | some BodyType.data_body ↦ elim m.data_sections [ none ↦ [] | some s ↦ body_line (sections s) ]
  | some BodyType.value_body ↦ elim m.value_text [
    | none ↦ []
    | some t ↦ body_line (or_text (codes "<unavailable>") t)
  ]
  | some BodyType.sequence_body ↦ elim m.sequence_texts [
    | none ↦ []
    | some s ↦ body_line (sequences s)
  ]
  | some BodyType.no_body ↦ body_line (codes "<empty>")
  | some BodyType.other ↦ body_line (codes "<empty>")
]

unfoldable pub handle : Event → Watch → Watch
unfolding detach_text body_output
handle (connection_state c) w = record w { connection = c }
handle io_failed w = record w { io_error = true; error = codes "uAMQP IO error" }
handle (receiver_state r) w = record w { receiver = r }
handle (detached e) w = record w { link_error = true; error = detach_text e }
handle (message m) w = record w {
  received = w.received + 1;
  stopped = if leb w.target_count (w.received + 1) then true else w.stopped;
  output = w.output ++ body_output m;
}

unfoldable pub handle_all : List Event → Watch → Watch
unfolding handle
handle_all [] w = w
handle_all (e ∷ es) w = handle_all es (handle e w)

pub data Resource : Type 0 where
  tls_io mechanism sasl_io connection session link receiver : Resource

pub data Step : Type 0 where
  created destroyed : Resource → Step
  platform_deinit : Step

-- What the program uses of the libraries and of the clock; `true` stands for the code 0, or for a
-- handle that is not NULL.
pub record DebugApi (L : Type 0) : Type 0 where
  pub logger_init : L → Bool × L
  pub platform_init : L → Bool × L
  pub create : Resource → L → Bool × L
  pub messagereceiver_open : L → Bool × L
  pub dowork : L → List Event × L
  pub now : L → ℕ
  pub sleep : ℕ → L → L

module _ {L : Type 0} (api : DebugApi L) where
  abbrev pub goes_on : ℕ → ℕ → Watch → L → Bool
  goes_on count deadline w l =
      not w.stopped
      && (ltb w.received count
          && (not w.io_error && (not w.link_error && ltb (api.now l) deadline)))

  -- The receive loop, of which `fuel` rounds are left; `none` is a loop that runs out of them.
  unfoldable pub receive : ℕ → ℕ → ℕ → Watch → L → Option (Watch × L)
  unfolding handle_all
  receive zero count deadline w l = none
  receive (suc fuel) count deadline w l =
      let (events, after) = api.dowork l in
      let rest = receive fuel count deadline (handle_all events w) (api.sleep 100 after) in
      if goes_on count deadline w l then rest else some (w, l)

  -- The resources, in the order in which they are created; the log has the latest first.
  unfoldable pub create_all : List Resource → L → List Step → Bool × (L × List Step)
  create_all [] l log = (true, (l, log))
  create_all (r ∷ rs) l log =
      let (made, after) = api.create r l in
      let rest = create_all rs after (created r ∷ log) in
      if made then rest else (false, (after, log))

  abbrev pub all_resources : List Resource
  all_resources = tls_io ∷ mechanism ∷ sasl_io ∷ connection ∷ session ∷ link ∷ receiver ∷ []

  -- What is done before the loop: whether nothing was thrown, and what is created.
  unfoldable pub set_up : L → Bool × (L × List Step)
  unfolding create_all
  set_up l =
      let (logging, l1) = api.logger_init l in
      let (platform, l2) = api.platform_init l1 in
      let (made, (l3, log)) = create_all all_resources l2 [] in
      let (listening, l4) = api.messagereceiver_open l3 in
      if not logging
      then (false, (l1, []))
      else if not platform
      then (false, (l2, []))
      else if not made
      then (false, (l3, log))
      else (listening, (l4, log))

  -- `destroyResources`
  unfoldable pub destroy_resources : List Step → List Step
  destroy_resources log =
      platform_deinit
      ∷ destroyed mechanism
      ∷ destroyed tls_io
      ∷ destroyed sasl_io
      ∷ destroyed connection
      ∷ destroyed session
      ∷ destroyed link
      ∷ destroyed receiver
      ∷ log

  -- `main` with options that are accepted: the exit code, what was received, and what was created and
  -- destroyed.
  unfoldable pub run : ℕ → ℕ → ℕ → L → Option (ℕ × (Watch × List Step))
  unfolding receive set_up destroy_resources
  run fuel count timeout l =
      let (ready, (l', log)) = set_up l in
      if not ready
      then some (2, (start count, log))
      else elim (receive fuel count (api.now l' + timeout * 1000) (start count) l') [
        | none ↦ none
        | some (w, end) ↦ some ((if ltb w.received count then 1 else 0), (w, destroy_resources log))
      ]
