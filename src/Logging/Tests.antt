-- ===== src/Logging/Tests.antt =====
-- Runs of the log file.
use azure_uamqp_php.Prelude.{◌≡◌, refl, true, some, none, [], ◌∷◌, codes}
use azure_uamqp_php.Prelude.Int.{pos}
use azure_uamqp_php.Prelude.Decimal.{decimal, decimal_ℤ}
use azure_uamqp_php.Logging.{Entry, entry_line}
use azure_uamqp_php.Logging.Order.{
  init, log, deinit, traced, perform_all, at_start, InOrder, perform_all-InOrder,
}

abbrev entry : Entry
entry = record {
  is_verbose = true;
  file = some (codes "a.c");
  func = none;
  line = pos 12;
  message = some (codes "m");
}

entry_text : entry_line 5 7 entry (codes "m") ≡ codes "ts=5 pid=7 [DEBUG] a.c:12 : m\n"
unfolding entry_line decimal decimal_ℤ
entry_text = refl

-- The file is opened twice, written to, closed, and written to once more.
perform_all-InOrder_example :
    InOrder
      (perform_all
        (init (some (codes "log")) true
          ∷ init (some (codes "log")) true
          ∷ log 5 7 entry
          ∷ deinit
          ∷ log 6 7 entry
          ∷ traced true 7 7 (codes "7-1") (codes "e") []
          ∷ [])
        at_start).log
perform_all-InOrder_example =
    (perform_all-InOrder (
      init (some (codes "log")) true
      ∷ init (some (codes "log")) true
      ∷ log 5 7 entry
      ∷ deinit
      ∷ log 6 7 entry
      ∷ traced true 7 7 (codes "7-1") (codes "e") []
      ∷ [])).0
