-- ===== src/Quote/Line.antt =====
-- Connection.cpp, `trace`: a record is one line.
use azure_uamqp_php.Prelude.{
  ℕ, zero, suc, ◌≤◌, ◌≡◌, refl, true, false, none, some, [], ◌∷◌, ◌++◌, Text, if◌then◌else◌, arith,
  All, All-append, codes, is_empty,
}
use azure_uamqp_php.Prelude.Decimal.{decimal, decimal_digits, IsDigit}
use azure_uamqp_php.Decoder.Uuid.{hex_digit, hex_byte}
use azure_uamqp_php.Quote.Lossless.{Continuing, is_valid-Continuing}
use azure_uamqp_php.Quote.{
  unicode_escape, quote_step, quote_from, quote, trace_record, c_string, trace,
}

-- No control characters of ASCII, a line feed among them.
abbrev pub IsPrintable : Text → Type 0
IsPrintable = All λ b. 0x20 ≤ b

unicode_escape-IsPrintable : (c : ℕ) → IsPrintable (unicode_escape c)
unfolding unicode_escape hex_byte hex_digit
unicode_escape-IsPrintable c = ground arith

step-IsPrintable :
    (c : ℕ) (t : Text)
    → let (written, next) = quote_step c t in IsPrintable written × Continuing next t
unfolding quote_step
step-IsPrintable c t = ground (arith, unicode_escape-IsPrintable c, is_valid-Continuing c t)

quote_from-IsPrintable : (n : ℕ) (t : Text) → Continuing n t → IsPrintable (quote_from n t)
unfolding quote_from
quote_from-IsPrintable zero [] k = tt
quote_from-IsPrintable (suc n) [] k = tt
quote_from-IsPrintable (suc n) (b ∷ t) k = (omega arith, quote_from-IsPrintable n t k.1)
quote_from-IsPrintable zero (c ∷ t) k =
    let (written, next) = quote_step c t in
    let (p, continuing) = step-IsPrintable c t in
    All-append _ written (quote_from next t) p (quote_from-IsPrintable next t continuing)

pub quote-IsPrintable : (t : Text) → IsPrintable (quote t)
unfolding quote
quote-IsPrintable t = (
  omega arith,
  All-append _ (quote_from 0 t) (b'"' ∷ []) (quote_from-IsPrintable 0 t tt) (omega arith),
)

IsDigit-IsPrintable : (t : Text) → All IsDigit t → IsPrintable t
IsDigit-IsPrintable [] d = tt
IsDigit-IsPrintable (c ∷ t) d = (omega arith, IsDigit-IsPrintable t d.1)

pub decimal-IsPrintable : (n : ℕ) → IsPrintable (decimal n)
decimal-IsPrintable n = IsDigit-IsPrintable (decimal n) (decimal_digits n)

fields-IsPrintable :
    (fields : Text)
    → IsPrintable fields
    → IsPrintable (if is_empty fields then [] else b',' ∷ fields)
fields-IsPrintable [] p = tt
fields-IsPrintable (c ∷ t) p = (omega arith, p)

pub join : (s t : Text) → IsPrintable s → IsPrintable t → IsPrintable (s ++ t)
join = All-append λ b. 0x20 ≤ b

trace_record-IsPrintable :
    (timestamp pid : ℕ) (connection_id event fields : Text)
    → IsPrintable fields
    → IsPrintable (trace_record timestamp pid connection_id event fields)
unfolding trace_record
trace_record-IsPrintable timestamp pid connection_id event fields p =
    join (codes "{\"timestampMs\":") _ (omega arith) (
      join (decimal timestamp) _ (decimal-IsPrintable timestamp) (
        join (codes ",\"pid\":") _ (omega arith) (
          join (decimal pid) _ (decimal-IsPrintable pid) (
            join (codes ",\"connection\":") _ (omega arith) (
              join (quote connection_id) _ (quote-IsPrintable connection_id) (
                join (codes ",\"event\":") _ (omega arith) (
                  join (quote event) _ (quote-IsPrintable event) (
                    join (if is_empty fields then [] else b',' ∷ fields) _
                      (fields-IsPrintable fields p) (omega arith)))))))))

pub c_string-IsPrintable : (t : Text) → IsPrintable t → c_string t ≡ t
unfolding c_string
c_string-IsPrintable [] p = refl
c_string-IsPrintable (c ∷ t) p = ground (arith, c_string-IsPrintable t p.1)

-- With debug on, the whole record is written, and a line feed behind it; the record itself has no
-- control character, whatever the connection id and the event hold. The extra fields must have
-- none. Without debug nothing is written.
pub trace-line :
    (timestamp pid : ℕ) (connection_id event fields : Text)
    → IsPrintable fields
    → let record_text = trace_record timestamp pid connection_id event fields in
      (trace true timestamp pid connection_id event fields ≡ some (record_text ++ b'\n' ∷ []))
      × IsPrintable record_text
      × (trace false timestamp pid connection_id event fields ≡ none)
unfolding trace
trace-line timestamp pid connection_id event fields p =
    let printable = trace_record-IsPrintable timestamp pid connection_id event fields p in
    (rw (c_string-IsPrintable _ printable) refl, printable, refl)
