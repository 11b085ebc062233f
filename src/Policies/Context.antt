-- ===== src/Policies/Context.antt =====
-- backend/mystic_auth/authorization/context/request_context_builder.py with the client's address of
-- backend/mystic_auth/auth/security/client_ip.py, and dependencies/authorization_dependency.py.
pub mod Laws
mod Tests
use balance_sheet_analysis.Prelude.{
  String, Bool, false, not, ◌||◌, Option, none, some, List, [], is_nil, if◌then◌else◌,
}
use balance_sheet_analysis.Prelude.Equality.{◌==◌, contains, string_eq}
use balance_sheet_analysis.Json.{Json, null, str, obj, Fields, end, field}
use balance_sheet_analysis.Exec.{Exec, pure, ◌>>=◌, ◌>>◌}
use balance_sheet_analysis.Tables.{Database}
use balance_sheet_analysis.Policies.Conditions.Library.{Environment}
use balance_sheet_analysis.Policies.Service.{require}

-- What is read of a request: the TCP peer and the header x-forwarded-for; and the time at which it is
-- read, as isoformat writes it.
pub record Request : Type 0 where
  pub peer_ip : Option String
  pub forwarded_for : Option String
  pub current_time : String

-- The addresses of TRUSTED_PROXY_IPS, and `s.split(",")[0].strip()`.
pub record Proxies : Type 0 where
  pub trusted : List String
  pub first_entry : String → String

-- `peer_ip in _TRUSTED_PROXY_IPS`
abbrev pub is_trusted : Proxies → Option String → Bool
is_trusted proxies none = false
is_trusted proxies (some peer_ip) = contains peer_ip proxies.trusted

-- The header's first entry, or the peer where there is none.
unfoldable pub forwarded : Proxies → Option String → Option String → Option String
forwarded proxies peer_ip none = peer_ip
forwarded proxies peer_ip (some header) =
    if header == ""
    then peer_ip
    else if proxies.first_entry header == ""
    then peer_ip
    else some (proxies.first_entry header)

unfoldable pub get_client_ip : Proxies → Request → Option String
unfolding forwarded
get_client_ip proxies request =
    if is_nil proxies.trusted || not (is_trusted proxies request.peer_ip)
    then request.peer_ip
    else forwarded proxies request.peer_ip request.forwarded_for

abbrev pub address_value : Option String → Json
address_value none = null
address_value (some ip) = str ip

abbrev pub context_of : Option String → String → Fields
context_of ip_address current_time =
    field "ip_address" (address_value ip_address)
      (field "current_time" (str current_time) (field "security_context" (obj end) end))

unfoldable pub build_authorization_context : Proxies → Request → Fields
unfolding get_client_ip
build_authorization_context proxies request =
    context_of (get_client_ip proxies request) request.current_time

-- `require_authorization`; the answer is the caller.
unfoldable pub require_authorization :
    Environment → Proxies → Request → String → String → String → Exec Database String
unfolding build_authorization_context
require_authorization env proxies request email action resource_type = do
  require env email action resource_type none (some (build_authorization_context proxies request))
  pure email
