-- ===== src/Policies/Context/Laws.antt =====
-- The checks of a request: they come to an answer, and a header changes none of them.
use balance_sheet_analysis.Prelude.{String, false, ◌≡◌, sym, ap, ◌∙◌, Option, none, some, arith}
use balance_sheet_analysis.Exec.{Result, pure, continue}
use balance_sheet_analysis.Tables.{Database}
use balance_sheet_analysis.Policies.Conditions.Library.{Environment}
use balance_sheet_analysis.Policies.Service.{require}
use balance_sheet_analysis.Policies.Managed.{Managed}
use balance_sheet_analysis.Policies.Context.{
  Request, Proxies, is_trusted, get_client_ip, context_of, require_authorization,
}

module _ (proxies : Proxies) (request : Request) where
  -- A peer that is no trusted proxy is the client.
  get_client_ip-peer :
      is_trusted proxies request.peer_ip ≡ false → get_client_ip proxies request ≡ request.peer_ip
  unfolding get_client_ip
  get_client_ip-peer h = ground arith

module _ (env : Environment) (proxies : Proxies) (request : Request)
    (email action resource_type : String) (db : Database) where
  -- Where the peer of a request is no trusted proxy, the header x-forwarded-for changes neither the
  -- answer to its check nor what the check writes.
  pub require_authorization-unforged :
      is_trusted proxies request.peer_ip ≡ false
      → (header : Option String)
      → require_authorization env proxies
          (record request { forwarded_for = header })
          email
          action
          resource_type
          db
        ≡ require_authorization env proxies request email action resource_type db
  unfolding require_authorization
  require_authorization-unforged untrusted header = ap checked (
      get_client_ip-peer proxies (record request { forwarded_for = header }) untrusted
      ∙ sym (get_client_ip-peer proxies request untrusted))
    where
      checked : Option String → Result String × Database
      checked ip =
          continue
            (require env email action resource_type none (some (context_of ip request.current_time))
              db)
            (λ _. pure email)
