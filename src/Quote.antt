-- ===== src/Quote.antt =====
-- Connection.cpp, `Connection::quote` and `Connection::trace`: trace records as lines of JSON.
pub mod Utf8
pub mod Shown
pub mod Lossless
pub mod Line
mod Tests
use azure_uamqp_php.Prelude.{
  ℕ, zero, suc, ◌+◌, ◌-◌, ◌/◌, ◌%◌, Bool, true, false, not, ◌&&◌, ◌||◌, Option, none, some, List,
  [], ◌∷◌, ◌++◌, Text, codes, length, is_empty, ltb, leb, ◌==◌, if◌then◌else◌,
}
use azure_uamqp_php.Prelude.Decimal.{decimal}
use azure_uamqp_php.Decoder.Uuid.{hex_byte}

-- The length that a lead byte announces; 0 for a byte that starts no sequence.
unfoldable pub sequence_length : ℕ → ℕ
sequence_length c =
    if leb 0xc2 c && leb c 0xdf
    then 2
    else if leb 0xe0 c && leb c 0xef
    then 3
    else if leb 0xf0 c && leb c 0xf4
    then 4
    else 0

abbrev pub is_continuation : ℕ → Bool
is_continuation next = leb 0x80 next && leb next 0xbf

-- What `offset == 1` checks besides.
unfoldable pub second_ok : ℕ → ℕ → Bool
second_ok c next =
    not (c == 0xe0 && ltb next 0xa0)
    && not (c == 0xed && leb 0xa0 next)
    && not (c == 0xf0 && ltb next 0x90)
    && not (c == 0xf4 && leb 0x90 next)

-- The loop over `offset`, from `offset` on, with `left` rounds to go.
unfoldable pub continues : ℕ → ℕ → ℕ → Text → Bool
unfolding second_ok
continues c offset zero bytes = true
continues c offset (suc left) [] = false
continues c offset (suc left) (next ∷ bytes) =
    is_continuation next
    && (if offset == 1 then second_ok c next else true)
    && continues c (offset + 1) left bytes

-- `valid`, where `rest` is what follows the byte `c`.
unfoldable pub is_valid : ℕ → Text → Bool
is_valid c rest =
    let size = sequence_length c in
    not (size == 0) && leb size (suc (length rest)) && continues c 1 (size - 1) rest

unfoldable pub unicode_escape : ℕ → Text
unfolding hex_byte
unicode_escape c = codes "\\u00" ++ hex_byte c

-- What is written for the byte `c` that `rest` follows, and how many bytes of `rest` are then
-- written as they are (`index += length - 1`).
unfoldable pub quote_step : ℕ → Text → Text × ℕ
quote_step c rest =
    if c == b'"' || c == b'\\'
    then (b'\\' ∷ c ∷ [], 0)
    else if leb 0x80 c
    then (if is_valid c rest then (c ∷ [], sequence_length c - 1) else (unicode_escape c, 0))
    else if ltb c 0x20
    then (unicode_escape c, 0)
    else (c ∷ [], 0)

-- The loop over `index`; the first `verbatim` bytes belong to a sequence that is being written.
unfoldable pub quote_from : ℕ → Text → Text
unfolding quote_step
quote_from verbatim [] = []
quote_from (suc verbatim) (c ∷ rest) = c ∷ quote_from verbatim rest
quote_from zero (c ∷ rest) =
    let (written, verbatim) = quote_step c rest in written ++ quote_from verbatim rest

unfoldable pub quote : Text → Text
unfolding quote_from
quote value = b'"' ∷ quote_from 0 value ++ b'"' ∷ []

-- `record` in `Connection::trace`. The clock and the process id are arguments.
unfoldable pub trace_record : ℕ → ℕ → Text → Text → Text → Text
trace_record timestamp pid connection_id event fields =
    codes "{\"timestampMs\":"
    ++ (decimal timestamp
        ++ (codes ",\"pid\":"
            ++ (decimal pid
                ++ (codes ",\"connection\":"
                    ++ (quote connection_id
                        ++ (codes ",\"event\":"
                            ++ (quote event
                                ++ ((if is_empty fields then [] else b',' ∷ fields)
                                    ++ codes "}"))))))))

-- What `%s` prints: the bytes before the first NUL.
unfoldable pub c_string : Text → Text
c_string [] = []
c_string (c ∷ t) = if c == 0 then [] else c ∷ c_string t

-- `Connection::trace`: the line that is printed; none without debug.
unfoldable pub trace : Bool → ℕ → ℕ → Text → Text → Text → Option Text
trace debug timestamp pid connection_id event fields =
    if not debug
    then none
    else some (c_string (trace_record timestamp pid connection_id event fields) ++ b'\n' ∷ [])
