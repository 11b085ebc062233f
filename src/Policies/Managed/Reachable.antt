-- ===== src/Policies/Managed/Reachable.antt =====
-- Sequences of requests to the handlers that write, each run to its end before the next, and what
-- holds in every state that they lead to. The handlers that read only add to the audit log.
use balance_sheet_analysis.Prelude.{ℕ, String, ◌≡◌, refl, sym, Option}
use mathlib.Core.Path.{subst}
use balance_sheet_analysis.Json.{Fields}
use balance_sheet_analysis.Tables.{Database}
use balance_sheet_analysis.Policies.Conditions.Library.{Environment}
use balance_sheet_analysis.Policies.Store.Mutations.{PolicyCreate}
use balance_sheet_analysis.Policies.Store.Replay.Laws.{Accounts, Accounts-refl}
use balance_sheet_analysis.Policies.Admin.Crud.{
  PolicyUpdate, create_policy, update_policy, delete_policy,
}
use balance_sheet_analysis.Policies.Admin.History.{rollback_policy}
use balance_sheet_analysis.Policies.Admin.Assignment.{
  assign_policy_to_user, remove_policy_from_user,
}
use balance_sheet_analysis.Policies.Managed.{Managed}
use balance_sheet_analysis.Policies.Managed.Kept.{Kept}
use balance_sheet_analysis.Policies.Managed.Routes.{create_policy-Kept, delete_policy-Kept}
use balance_sheet_analysis.Policies.Managed.Routes.Update.{update_policy-Kept}
use balance_sheet_analysis.Policies.Managed.Routes.Rollback.{rollback_policy-Kept}
use balance_sheet_analysis.Policies.Managed.Routes.Assignment.{
  assign_policy_to_user-Kept, remove_policy_from_user-Kept,
}

-- A request, or the clock going on.
pub data AdminRequest : Type 0 where
  create_request : PolicyCreate → AdminRequest
  update_request : String → PolicyUpdate → AdminRequest
  delete_request : String → Option String → AdminRequest
  rollback_request : String → ℕ → Option String → AdminRequest
  assign_request : String → String → AdminRequest
  remove_request : String → String → AdminRequest
  clock_tick : ℕ → AdminRequest

-- `email` is the caller's, `env` the environment at the time, and `context` the request's.
unfoldable pub serve_admin : Environment → String → Fields → AdminRequest → Database → Database
serve_admin env email context (create_request payload) db =
    (create_policy env email context payload db).1
serve_admin env email context (update_request name u) db =
    (update_policy env email context name u db).1
serve_admin env email context (delete_request name reason) db =
    (delete_policy env email context name reason db).1
serve_admin env email context (rollback_request name history_id reason) db =
    (rollback_policy env email context name history_id reason db).1
serve_admin env email context (assign_request user_email name) db =
    (assign_policy_to_user env email context user_email name db).1
serve_admin env email context (remove_request user_email name) db =
    (remove_policy_from_user env email context user_email name db).1
serve_admin env email context (clock_tick now) db = record db { now = now }

-- The states that some sequence of requests leads to, whoever sends them.
pub data AdminReachable (initial : Database) : Database → Type 0 where
  begin_admin : {db : Database} → db ≡ initial → AdminReachable initial db
  then_admin :
      {db next : Database} (env : Environment) (email : String) (context : Fields)
      (request : AdminRequest)
      → AdminReachable initial db
      → next ≡ serve_admin env email context request db
      → AdminReachable initial next

serve_admin-Kept :
    (initial : Database) (env : Environment) (email : String) (context : Fields)
    (request : AdminRequest) (db : Database)
    → Kept initial db
    → Kept initial (serve_admin env email context request db)
unfolding serve_admin
serve_admin-Kept initial env email context (create_request payload) db k =
    create_policy-Kept initial env email context payload db k
serve_admin-Kept initial env email context (update_request name u) db k =
    update_policy-Kept initial env email context name u db k
serve_admin-Kept initial env email context (delete_request name reason) db k =
    delete_policy-Kept initial env email context name reason db k
serve_admin-Kept initial env email context (rollback_request name history_id reason) db k =
    rollback_policy-Kept initial env email context name history_id reason db k
serve_admin-Kept initial env email context (assign_request user_email name) db k =
    assign_policy_to_user-Kept initial env email context user_email name db k
serve_admin-Kept initial env email context (remove_request user_email name) db k =
    remove_policy_from_user-Kept initial env email context user_email name db k
serve_admin-Kept initial env email context (clock_tick now) db k = k

AdminReachable-Kept :
    {initial db : Database} → Managed initial → AdminReachable initial db → Kept initial db
AdminReachable-Kept {initial = initial} m (begin_admin e) =
    subst (Kept initial) (sym e) (m, Accounts-refl initial initial refl refl)
AdminReachable-Kept {initial = initial} m (then_admin {db = before} env email context request r e) =
    subst (Kept initial) (sym e)
      (serve_admin-Kept initial env email context request before (AdminReachable-Kept m r))

-- In every state that requests to create, edit, delete, roll back, assign and revoke policies lead
-- to from a managed one, whoever sends them and whether they succeed or fail: the conditions of every
-- policy were accepted by the validator, a name and an id are one policy's, the three baseline
-- policies are there under their names and active, every assignment is of a policy that is there,
-- system_superuser is assigned to somebody, and every entry of the history has a definition that
-- bears the policy's name.
pub AdminReachable-Managed :
    {initial db : Database} → Managed initial → AdminReachable initial db → Managed db
AdminReachable-Managed m r = (AdminReachable-Kept m r).0

-- Along such a sequence the history only grows at its end, and the entries that it gains, replayed
-- on the definitions that there were at the start, give the definitions that there are: the table
-- of policies implements the view that the history describes.
pub AdminReachable-Accounts :
    {initial db : Database} → Managed initial → AdminReachable initial db → Accounts initial db
AdminReachable-Accounts m r = (AdminReachable-Kept m r).1
