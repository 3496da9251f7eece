-- ===== src/Trace/Tests.antt =====
-- The records at concrete values, and the theorems about them there.
use azure_uamqp_php.Prelude.{
  ℕ, suc, ap, ◌%◌, ◌≡◌, refl, true, some, [], ◌∷◌, ◌++◌, Text, codes, arith, map, All,
}
use azure_uamqp_php.Prelude.Int.{pos, negsuc}
use azure_uamqp_php.Prelude.Decimal.{decimal, decimal_ℤ, decimal_digits, IsDigit}
use azure_uamqp_php.Message.Library.{PhpApi}
use azure_uamqp_php.Message.Samples.{
  Php, nothing, flag, string, number, real, nil, cons, values, small, holding,
}
use azure_uamqp_php.Trace.Json.{AreBytes, read_object, all_seen}
use azure_uamqp_php.Trace.Records.{receiver_closed, line, all_members, line-IsRead}
use azure_uamqp_php.Trace.Deliveries.{HasTexts, trace_delivery-IsRead}
use azure_uamqp_php.Trace.{Context, trace_delivery}

abbrev context : Context
context = record {
  debug = true;
  timestamp = 1700;
  pid = 42;
  connection_id = codes "42-1";
  resource_name = b'q' ∷ b'"' ∷ 0xff ∷ [];
}

-- An error text that tries to add a member of its own.
abbrev forged : Text
forged = codes "x\",\"reason\":\"" ++ 10 ∷ []

line-IsRead_example :
    read_object (line context (receiver_closed (codes "batch-complete") true forged))
    ≡ some (all_seen (all_members context (receiver_closed (codes "batch-complete") true forged)))
line-IsRead_example =
    (line-IsRead context (receiver_closed (codes "batch-complete") true forged) (omega arith)
      (omega arith)).2

-- PHP's values with what PHP-CPP prints of them.
abbrev printed : Php → Text
printed (number z) = decimal_ℤ z
printed (string t) = map (λ c. c % 256) t
printed _ = []

abbrev printing : PhpApi ℕ
printing = record values { string_value = printed }

map-AreBytes : (t : Text) → AreBytes (map (λ c. c % 256) t)
map-AreBytes [] = tt
map-AreBytes (c ∷ t) = (omega arith, map-AreBytes t)

digits-AreBytes : (t : Text) → All IsDigit t → AreBytes t
digits-AreBytes [] h = tt
digits-AreBytes (c ∷ t) h = (omega arith, digits-AreBytes t h.1)

printed-AreBytes : (v : Php) → AreBytes (printed v)
unfolding decimal_ℤ
printed-AreBytes (number (pos n)) = digits-AreBytes (decimal n) (decimal_digits n)
printed-AreBytes (number (negsuc n)) =
    (omega arith, digits-AreBytes (decimal (suc n)) (decimal_digits (suc n)))
printed-AreBytes (string t) = map-AreBytes t
printed-AreBytes nothing = tt
printed-AreBytes (flag b) = tt
printed-AreBytes (real x) = tt
printed-AreBytes nil = tt
printed-AreBytes (cons k v rest) = tt

printed_number : (n : ℕ) → printed (number (pos n)) ≡ decimal n
unfolding decimal_ℤ
printed_number n = refl

abbrev printing-HasTexts : HasTexts printing
printing-HasTexts = record { texts = printed-AreBytes; counts = printed_number }

trace_delivery-IsRead_example :
    (trace_delivery small printing context (some 7) (codes "accepted-stop") (holding 1)).1
    ≡ holding 1
trace_delivery-IsRead_example =
    ap (λ x. x.1)
      (trace_delivery-IsRead small printing printing-HasTexts context (some 7)
        (codes "accepted-stop") (holding 1) (omega arith) (omega arith) (omega arith)).2
