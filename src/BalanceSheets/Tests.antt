-- ===== src/BalanceSheets/Tests.antt =====
-- Runs of BalanceSheets/Crud.antt on a small database, and the theorems about them applied to it.
use balance_sheet_analysis.Prelude.{inr, String, false, ◌≡◌, refl, some, List, [], ◌∷◌}
use balance_sheet_analysis.Prelude.Int.{pos}
use balance_sheet_analysis.Exec.{ok, err, value_error, balance_sheet_exists}
use balance_sheet_analysis.Tables.{Database, Company, Float, finite}
use balance_sheet_analysis.Examples.{two_groups}
use balance_sheet_analysis.Companies.Crud.{create_company, get_parent, insert_company}
use balance_sheet_analysis.BalanceSheets.Sanitize.{
  float64, Native, native_float, sanitize_dict, is_valid_value, convert_value,
}
use balance_sheet_analysis.BalanceSheets.Rows.{find_sheet}
use balance_sheet_analysis.BalanceSheets.Crud.{
  Yfinance, insert_balance_sheet, insert_columns, get_balance_sheet, Frame, find_year, raw_fields,
  get_cell, fields_of_frame, known_fields, store_columns, new_sheet, import_balance_sheet,
}
use balance_sheet_analysis.BalanceSheets.Fetched.{
  known_fields-fields_of_frame, import_balance_sheet-find_sheet, import_balance_sheet-again,
}

abbrev the_frame : Frame
the_frame = record {
  empty = false;
  rows = (2023, ("Accounts Payable", float64 (finite (pos 5) (pos 0))) ∷ []) ∷ [];
}

abbrev pub one_year : Yfinance
one_year = record {
  balance_sheet = λ ticker. inr the_frame;
  double_of = λ z. some (finite z (pos 0));
}

abbrev the_fields : List (String × Native)
the_fields = ("accounts_payable", native_float (finite (pos 5) (pos 0))) ∷ []

abbrev the_columns : List (String × Float)
the_columns = ("accounts_payable", finite (pos 5) (pos 0)) ∷ []

abbrev the_owner : Company
the_owner = record {
  id = 2;
  name = "Subsidiary";
  ticker = "SUB";
  parent_company_id = some 1;
  group_root_id = 1;
  created_at = 100;
  updated_at = 100;
}

abbrev imported : Database
imported = record two_groups {
  balance_sheets = new_sheet 2 2023 the_columns two_groups ∷ [];
  balance_sheet_seq = 2;
}

fetched_example : fields_of_frame 2023 the_frame ≡ some the_fields
unfolding fields_of_frame find_year raw_fields get_cell sanitize_dict is_valid_value convert_value
fetched_example = refl

known_fields-fields_of_frame_example : known_fields the_fields ≡ the_fields
known_fields-fields_of_frame_example =
    known_fields-fields_of_frame 2023 the_frame the_fields fetched_example

imported_example :
    import_balance_sheet one_year 2 2023 "SUB" two_groups
    ≡ (ok (new_sheet 2 2023 the_columns two_groups), imported)
unfolding create_company get_parent insert_company store_columns import_balance_sheet
    insert_balance_sheet insert_columns get_balance_sheet fields_of_frame find_year raw_fields
    get_cell sanitize_dict is_valid_value convert_value known_fields
imported_example = refl

import_balance_sheet-find_sheet_example :
    find_sheet 2 2023 imported.balance_sheets ≡ some (new_sheet 2 2023 the_columns two_groups)
import_balance_sheet-find_sheet_example =
    import_balance_sheet-find_sheet one_year 2 2023 "SUB" two_groups imported
      (new_sheet 2 2023 the_columns two_groups) imported_example

import_balance_sheet-again_example :
    import_balance_sheet one_year 2 2023 "SUB" imported
    ≡ (err (value_error (balance_sheet_exists 2 2023)), imported)
import_balance_sheet-again_example =
    import_balance_sheet-again one_year one_year 2 2023 "SUB" "SUB" two_groups imported
      (new_sheet 2 2023 the_columns two_groups) imported_example
