-- ===== src/Trace/Json.antt =====
-- Connection.cpp, `trace`: a JSON reader for objects of plain values (RFC 8259), and what it reads of
-- an object that is written member by member.
use azure_uamqp_php.Prelude.{
  ℕ, zero, suc, ◌+◌, ◌-◌, ◌*◌, ◌<◌, ◌≡◌, refl, ap, ◌∙◌, Bool, true, false, ◌&&◌, Option, none, some,
  List, [], ◌∷◌, ◌++◌, Text, codes, length, length-append, is_empty, leb, ◌==◌, if◌then◌else◌,
  arith, All,
}
use azure_uamqp_php.Prelude.Decimal.{
  decimal, value_onto, value-decimal, decimal_digits, decimal-IsCanonical, IsCanonical, IsDigit,
}
use azure_uamqp_php.Prelude.Options.{◌>>=◌}
use azure_uamqp_php.Quote.{quote}
use azure_uamqp_php.Quote.Shown.{shown, shown_ascii}
use azure_uamqp_php.Quote.Lossless.{read_quoted_text, read_quoted_text-quote}

pub data Json : Type 0 where
  null : Json
  boolean : Bool → Json
  number : ℕ → Json
  string : Text → Json

abbrev pub Members : Type 0
Members = List (Text × Json)

-- What is shown of a value: of a string, its characters, and other bytes as code points.
abbrev pub seen : Json → Json
seen (Json.string s) = Json.string (shown s)
seen Json.null = Json.null
seen (Json.boolean b) = Json.boolean b
seen (Json.number n) = Json.number n

abbrev pub all_seen : Members → Members
all_seen [] = []
all_seen ((k, v) ∷ ms) = (k, seen v) ∷ all_seen ms

-- What follows a text that has to stand first.
abbrev skip : Text → Text → Option Text
skip [] t = some t
skip (k ∷ ks) [] = none
skip (k ∷ ks) (c ∷ t) = if k == c then skip ks t else none

abbrev is_digit : ℕ → Bool
is_digit c = leb b'0' c && leb c b'9'

-- The digits in front, as a number behind the number `acc`.
pub read_digits : ℕ → Text → ℕ × Text
read_digits acc [] = (acc, [])
read_digits acc (c ∷ t) =
    let rest = read_digits (acc * 10 + (c - b'0')) t in if is_digit c then rest else (acc, c ∷ t)

-- A natural number; no digit follows a leading 0.
pub read_number : ℕ → Text → Json × Text
read_number c t =
    let (n, rest) = read_digits (c - b'0') t in
    if c == b'0' then (Json.number 0, t) else (Json.number n, rest)

pub read_string_value : Text → Option (Json × Text)
read_string_value t = do (s, rest) ← read_quoted_text t; some (Json.string s, rest)

pub read_literal : Text → Json → Text → Option (Json × Text)
read_literal literal v t = do rest ← skip literal t; some (v, rest)

pub read_value : Text → Option (Json × Text)
read_value [] = none
read_value (c ∷ t) =
    if c == b'"'
    then read_string_value (c ∷ t)
    else if is_digit c
    then some (read_number c t)
    else if c == b'n'
    then read_literal (codes "null") Json.null (c ∷ t)
    else if c == b't'
    then read_literal (codes "true") (Json.boolean true) (c ∷ t)
    else read_literal (codes "false") (Json.boolean false) (c ∷ t)

-- What stands behind a member: more of them, or the end of the object and of the text.
pub read_more : (Text → Option Members) → Text → Option Members
read_more next [] = none
read_more next (c ∷ t) =
    if c == b',' then next t else if c == b'}' && is_empty t then some [] else none

-- The members up to the end, of which there are fewer than the fuel.
pub read_members : ℕ → Text → Option Members
read_members zero t = none
read_members (suc f) t = do
  (k, t₁) ← read_quoted_text t
  t₂ ← skip (codes ":") t₁
  (v, t₃) ← read_value t₂
  more ← read_more (read_members f) t₃
  some ((k, v) ∷ more)

-- The members of the object that a text is.
pub read_object : Text → Option Members
read_object [] = none
read_object (c ∷ t) = if c == b'{' then read_members (length t) t else none

-- An object as it is written, member by member.
abbrev pub value_text : Json → Text
value_text Json.null = codes "null"
value_text (Json.boolean true) = codes "true"
value_text (Json.boolean false) = codes "false"
value_text (Json.number n) = decimal n
value_text (Json.string s) = quote s

abbrev pub member_text : Text → Json → Text → Text
member_text k v rest = quote k ++ (b':' ∷ (value_text v ++ rest))

abbrev pub more_text : Members → Text
more_text [] = b'}' ∷ []
more_text ((k, v) ∷ ms) = b',' ∷ member_text k v (more_text ms)

abbrev pub object_text : Text → Json → Members → Text
object_text k v ms = b'{' ∷ member_text k v (more_text ms)

abbrev pub AreBytes : Text → Type 0
AreBytes = All λ c. c < 256

abbrev IsAscii : Text → Type 0
IsAscii = All λ c. c < 0x80

abbrev pub HasBytes : Json → Type 0
HasBytes (Json.string s) = AreBytes s
HasBytes _ = Unit {0}

abbrev pub MembersHaveBytes : Members → Type 0
MembersHaveBytes [] = Unit {0}
MembersHaveBytes ((k, v) ∷ ms) = IsAscii k × HasBytes v × MembersHaveBytes ms

-- A text that goes on with no digit.
abbrev Stops : Text → Type 0
Stops [] = Unit {0}
Stops (c ∷ t) = is_digit c ≡ false

more_text-Stops : (ms : Members) → Stops (more_text ms)
more_text-Stops [] = refl
more_text-Stops ((k, v) ∷ ms) = refl

read_digits-append :
    (acc : ℕ) (ds rest : Text)
    → All IsDigit ds
    → Stops rest
    → read_digits acc (ds ++ rest) ≡ (value_onto acc ds, rest)
unfolding read_digits
read_digits-append acc [] [] h s = refl
read_digits-append acc [] (c ∷ t) h s = ground arith
read_digits-append acc (d ∷ ds) rest h s =
    ground (arith, read_digits-append (acc * 10 + (d - b'0')) ds rest h.1 s)

-- A number is read off the front of what goes on with no digit.
read_number-decimal :
    (n : ℕ) (ds rest : Text)
    → All IsDigit ds
    → IsCanonical n ds
    → value_onto 0 ds ≡ n
    → Stops rest
    → read_value (ds ++ rest) ≡ some (Json.number n, rest)
unfolding read_value read_number
read_number-decimal n [] rest h c e s = elim c [ ]
read_number-decimal n (d ∷ ds) rest h c e s =
    ground (arith, c, read_digits-append (d - b'0') ds rest h.1 s)

-- A name in ASCII is read as it is.
read_name : (k rest : Text) → IsAscii k → read_quoted_text (quote k ++ rest) ≡ some (k, rest)
read_name k rest h =
    read_quoted_text-quote k rest (bytes k h) ∙ ap (λ t. some (t, rest)) (shown_ascii k h)
  where
    bytes : (t : Text) → IsAscii t → AreBytes t
    bytes [] h = tt
    bytes (c ∷ t) h = (omega arith, bytes t h.1)

read_literal_null : (rest : Text) → read_value (codes "null" ++ rest) ≡ some (Json.null, rest)
unfolding read_value read_literal
read_literal_null rest = refl

read_literal_true :
    (rest : Text) → read_value (codes "true" ++ rest) ≡ some (Json.boolean true, rest)
unfolding read_value read_literal
read_literal_true rest = refl

read_literal_false :
    (rest : Text) → read_value (codes "false" ++ rest) ≡ some (Json.boolean false, rest)
unfolding read_value read_literal
read_literal_false rest = refl

read_string_value-quote :
    (s rest : Text)
    → AreBytes s
    → read_string_value (quote s ++ rest) ≡ some (Json.string (shown s), rest)
unfolding read_string_value
read_string_value-quote s rest h = rw (read_quoted_text-quote s rest h) refl

read_value-string :
    (s rest : Text) → read_value (quote s ++ rest) ≡ read_string_value (quote s ++ rest)
unfolding read_value quote
read_value-string s rest = refl

read_value-quote :
    (s rest : Text) → AreBytes s → read_value (quote s ++ rest) ≡ some (Json.string (shown s), rest)
read_value-quote s rest h = read_value-string s rest ∙ read_string_value-quote s rest h

-- A value is read off the front of what goes on with no digit.
read_value-value_text :
    (v : Json) (rest : Text)
    → HasBytes v
    → Stops rest
    → read_value (value_text v ++ rest) ≡ some (seen v, rest)
read_value-value_text Json.null rest h s = read_literal_null rest
read_value-value_text (Json.boolean true) rest h s = read_literal_true rest
read_value-value_text (Json.boolean false) rest h s = read_literal_false rest
read_value-value_text (Json.number n) rest h s =
    read_number-decimal n (decimal n) rest (decimal_digits n) (decimal-IsCanonical n)
      (value-decimal n) s
read_value-value_text (Json.string t) rest h s = read_value-quote t rest h

read_members-member_text :
    (f : ℕ) (k : Text) (v : Json) (ms : Members)
    → length ms < f
    → MembersHaveBytes ((k, v) ∷ ms)
    → read_members f (member_text k v (more_text ms)) ≡ some (all_seen ((k, v) ∷ ms))
unfolding read_members read_more
read_members-member_text zero k v ms l h = elim l [ ]
read_members-member_text (suc f) k v [] l h =
    rw (read_name k (b':' ∷ (value_text v ++ more_text [])) h.0)
      (rw (read_value-value_text v (more_text []) h.1 refl) refl)
read_members-member_text (suc f) k v ((j, w) ∷ ms) l h =
    rw (read_name k (b':' ∷ (value_text v ++ more_text ((j, w) ∷ ms))) h.0) (
      rw (read_value-value_text v (more_text ((j, w) ∷ ms)) h.1 refl)
        (rw (read_members-member_text f j w ms (omega arith) h.2) refl))

length-more_text : (ms : Members) → length ms < length (more_text ms)
length-more_text [] = omega arith
length-more_text ((k, v) ∷ ms) = omega (
  arith,
  length-append (quote k) (b':' ∷ (value_text v ++ more_text ms)),
  length-append (value_text v) (more_text ms),
  length-more_text ms,
)

-- An object of plain values that is written member by member is read back, member by member, each
-- value as it is shown.
pub read_object-object_text :
    (k : Text) (v : Json) (ms : Members)
    → MembersHaveBytes ((k, v) ∷ ms)
    → read_object (object_text k v ms) ≡ some (all_seen ((k, v) ∷ ms))
unfolding read_object
read_object-object_text k v ms h =
    read_members-member_text _ k v ms
      (omega (
        arith,
        length-append (quote k) (b':' ∷ (value_text v ++ more_text ms)),
        length-append (value_text v) (more_text ms),
        length-more_text ms,
      ))
      h
