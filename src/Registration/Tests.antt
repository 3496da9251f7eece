-- ===== src/Registration/Tests.antt =====
-- The registered methods at concrete arguments.
use azure_uamqp_php.Prelude.{false, List, [], ◌∷◌, codes}
use azure_uamqp_php.Runtime.Library.{PhpRun, returns}
use azure_uamqp_php.Message.Samples.{Php, string, nothing}

abbrev returning : Php → PhpRun
returning v = returns false

-- `setCallback` with its three required arguments.
abbrev three_arguments : List Php
three_arguments = string (codes "queue") ∷ nothing ∷ nothing ∷ []
