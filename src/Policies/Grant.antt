-- ===== src/Policies/Grant.antt =====
-- authorization_service.py, `assert_authorized_to_grant`: nobody hands out a sensitive action that
-- they do not hold.
pub mod Laws
use balance_sheet_analysis.Prelude.{
  String, Bool, not, Option, none, List, [], ◌∷◌, ◌<>◌, if◌then◌else◌,
}
use balance_sheet_analysis.Exec.{
  Exec, pure, or_raise, raise_if, ◌>>=◌, ◌>>◌, type_error, http_exception, text, Exception,
}
use balance_sheet_analysis.Tables.{Database}
use balance_sheet_analysis.Policies.Conditions.Library.{Environment}
use balance_sheet_analysis.Policies.Names.{is_sensitive}
use balance_sheet_analysis.Policies.Service.{authorize}

abbrev pub cannot_grant : String → Exception
cannot_grant action =
    http_exception 403
      (text ("Cannot grant action '" <> action <> "': you do not hold it yourself"))

module _ (env : Environment) (caller_email : String) (resource_type : String) where
  -- The loop over the actions, which stops at the first that the caller does not hold.
  unfoldable pub assert_each : List String → Exec Database Unit
  unfolding authorize
  assert_each [] = pure tt
  assert_each (action ∷ actions) =
      let rest = assert_each actions in
      if is_sensitive action
      then (do
        allowed ← authorize env caller_email action resource_type none none
        raise_if (not allowed) (cannot_grant action)
        rest)
      else rest

  -- To loop over None raises.
  unfoldable pub assert_authorized_to_grant : Option (List String) → Exec Database Unit
  unfolding assert_each
  assert_authorized_to_grant actions = do each ← or_raise actions type_error; assert_each each
