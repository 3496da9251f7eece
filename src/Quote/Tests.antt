-- ===== src/Quote/Tests.antt =====
-- Runs of `quote`, and its theorems at concrete values.
use azure_uamqp_php.Prelude.{◌≡◌, refl, [], ◌∷◌, ◌++◌, Text, codes, some, arith}
use azure_uamqp_php.Quote.{quote, is_valid, continues, sequence_length, unicode_escape}
use azure_uamqp_php.Quote.Lossless.{read-quote, read_quoted_text, read_quoted_text-quote}
use azure_uamqp_php.Quote.Shown.{shown, shown_from, utf8}
use azure_uamqp_php.Quote.Utf8.{quote-IsUtf8, IsUtf8, table}

-- A quotation mark, a line feed, U+00E9 and a stray byte.
abbrev mixed : Text
mixed = b'a' ∷ b'"' ∷ 10 ∷ 0xc3 ∷ 0xa9 ∷ 0xe9 ∷ []

quote-mixed : quote mixed ≡ b'"' ∷ codes "a\\\"\\u000a" ++ 0xc3 ∷ 0xa9 ∷ codes "\\u00e9\""
unfolding quote is_valid unicode_escape sequence_length continues
quote-mixed = refl

-- An overlong sequence is escaped byte by byte.
quote_overlong : quote (0xe0 ∷ 0x9f ∷ 0xbf ∷ []) ≡ codes "\"\\u00e0\\u009f\\u00bf\""
unfolding quote is_valid unicode_escape sequence_length continues
quote_overlong = refl

-- The stray byte is shown as U+00E9, as the character in front of it.
read_quoted_text-quote_example :
    read_quoted_text (quote mixed ++ codes ",") ≡ some (shown mixed, codes ",")
read_quoted_text-quote_example = read_quoted_text-quote mixed (codes ",") (omega arith)

shown-mixed : shown mixed ≡ b'a' ∷ b'"' ∷ 10 ∷ 0xc3 ∷ 0xa9 ∷ 0xc3 ∷ 0xa9 ∷ []
unfolding shown shown_from utf8 table
shown-mixed = refl

abbrev accented : Text
accented = b'a' ∷ b'"' ∷ 10 ∷ 0xc3 ∷ 0xa9 ∷ []

read-quote_example : read_quoted_text (quote accented ++ codes ",") ≡ some (accented, codes ",")
unfolding table
read-quote_example = read-quote accented (codes ",") (omega arith) (omega arith)

quote-IsUtf8_example : IsUtf8 (quote mixed)
quote-IsUtf8_example = quote-IsUtf8 mixed (omega arith)
