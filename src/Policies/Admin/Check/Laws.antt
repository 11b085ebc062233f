-- ===== src/Policies/Admin/Check/Laws.antt =====
-- A batch of checks answers as the single checks do.
use balance_sheet_analysis.Prelude.{
  String, ◌≡◌, sym, ap, ◌∙◌, Option, List, [], ◌∷◌, ◌++◌, map, append_assoc, append-nil,
}
use balance_sheet_analysis.Json.{Fields}
use balance_sheet_analysis.Exec.{Result, ok, pure, continue}
use balance_sheet_analysis.Tables.{Database, AuditEntry}
use balance_sheet_analysis.Policies.Conditions.Library.{Environment}
use balance_sheet_analysis.Policies.Engine.{AuthorizationDecision}
use balance_sheet_analysis.Policies.Repository.{
  active_policies, get_active_policies_for_user, create_entry,
}
use balance_sheet_analysis.Policies.Service.{entry_of}
use balance_sheet_analysis.Policies.Service.Laws.{decided}
use balance_sheet_analysis.Policies.Admin.Check.{
  BatchItem, or_evaluation_error, decide_item, decide_items, authorize_batch,
}

module _ (env : Environment) (user_email : String) (context : Option Fields) where
  -- What a single check of the item decides; an exception counts as a denial.
  abbrev pub single : Database → BatchItem → AuthorizationDecision
  single db check =
      or_evaluation_error user_email check
        (decided env user_email check.action check.resource_type check.resource context db)

  abbrev pub entry_for : Database → BatchItem → AuditEntry
  entry_for db check =
      entry_of user_email check.action check.resource_type check.resource context (single db check)

  decide_items-all :
      (checks : List BatchItem) (db now : Database)
      → decide_items env user_email context (active_policies db user_email) checks now ≡ (
        ok (map (single db) checks),
        record now { audit_log = now.audit_log ++ map (entry_for db) checks },
      )
  unfolding decide_items decide_item create_entry
  decide_items-all [] db now =
      ap (λ log. (ok [], record now { audit_log = log })) (sym (append-nil now.audit_log))
  decide_items-all (check ∷ checks) db now =
      let next : Database = record now { audit_log = now.audit_log ++ entry_for db check ∷ [] } in
      ap
        (λ (r : Result (List AuthorizationDecision) × Database).
          continue r (λ decisions. pure (single db check ∷ decisions)))
        (decide_items-all checks db next)
      ∙ ap (λ log. (ok (map (single db) (check ∷ checks)), record now { audit_log = log }))
          (append_assoc now.audit_log (entry_for db check ∷ []) (map (entry_for db) checks))

  -- A batch always answers. Its decisions are, in the order of the items, those that a check of each
  -- item alone would make in the same state, with a denial for a check that would raise; each is
  -- logged in one entry, in that order, and nothing else is written.
  pub authorize_batch-map :
      (checks : List BatchItem) (db : Database)
      → authorize_batch env user_email context checks db ≡ (
        ok (map (single db) checks),
        record db { audit_log = db.audit_log ++ map (entry_for db) checks },
      )
  unfolding authorize_batch get_active_policies_for_user
  authorize_batch-map checks db = decide_items-all checks db db
