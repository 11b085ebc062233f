-- ===== src/Policies/Context/Tests.antt =====
-- The theorem about the checks of a request applied to one.
use balance_sheet_analysis.Prelude.{Option, ◌≡◌, refl, none, some, [], ◌∷◌}
use balance_sheet_analysis.Json.{Fields}
use balance_sheet_analysis.Access.Tests.{no_library}
use balance_sheet_analysis.Policies.Managed.Example.{seeded}
use balance_sheet_analysis.Policies.Context.{context_of, Request, Proxies, require_authorization}
use balance_sheet_analysis.Policies.Context.Laws.{require_authorization-unforged}

abbrev one_proxy : Proxies
one_proxy = record { trusted = "10.0.0.1" ∷ []; first_entry = λ s. s }

abbrev from_outside : Request
from_outside = record {
  peer_ip = some "203.0.113.7";
  forwarded_for = none;
  current_time = "2026-01-01T00:00:00+00:00";
}

abbrev from_outside_context : Option Fields
from_outside_context = some (context_of (some "203.0.113.7") "2026-01-01T00:00:00+00:00")

require_authorization-unforged_example :
    require_authorization no_library one_proxy
      (record from_outside { forwarded_for = some "10.9.9.9" })
      "root"
      "policies:read"
      "policies"
      seeded
    ≡ require_authorization no_library one_proxy from_outside "root" "policies:read" "policies"
        seeded
require_authorization-unforged_example =
    require_authorization-unforged no_library one_proxy from_outside "root" "policies:read"
      "policies" seeded refl (some "10.9.9.9")
