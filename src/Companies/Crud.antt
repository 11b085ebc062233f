-- ===== src/Companies/Crud.antt =====
-- backend/app/companies/company_crud.py: create, update, delete and the lookups by key. Each
-- function runs in one transaction; `company` is the row that the route has fetched in it.
use balance_sheet_analysis.Prelude.{
  ℕ, suc, String, Bool, true, false, not, ◌&&◌, Option, none, some, [], ◌∷◌, ◌++◌, ltb, select,
  if◌then◌else◌,
}
use balance_sheet_analysis.Prelude.Equality.{◌==◌, nat_eq, string_eq}
use balance_sheet_analysis.Exec.{
  ok, err, Exec, pure, gets, or_raise, raise_if, ◌>>=◌, ◌>>◌, value_error, parent_does_not_exist,
  ticker_taken, own_parent, cannot_reparent, cannot_delete,
}
use balance_sheet_analysis.Tables.{Database, Company}
use balance_sheet_analysis.Companies.Schema.{CompanyCreate, CompanyUpdate, Sent, unset, sent}
use balance_sheet_analysis.Companies.Rows.{
  find_company, find_ticker, replace_company, remove_company_row, count_subsidiaries, parent_exists,
  ticker_free,
}

unfoldable pub get_company_by_id : ℕ → Exec Database (Option Company)
get_company_by_id k = gets (λ db. find_company k db.companies)

unfoldable pub get_company_by_ticker : String → Exec Database (Option Company)
get_company_by_ticker t = gets (λ db. find_ticker t db.companies)

-- `db.get(Company, parent_company_id)` where one is given, and the ValueError
unfoldable pub get_parent : Option ℕ → Exec Database (Option Company)
get_parent none = pure none
get_parent (some p) = do
  found ← gets (λ db. find_company p db.companies)
  parent ← or_raise found (value_error (parent_does_not_exist p))
  pure (some parent)

-- `parent.group_root_id if parent is not None else company.id`
abbrev pub group_root_of : Option Company → ℕ → ℕ
group_root_of none id = id
group_root_of (some parent) id = parent.group_root_id

-- The row as it is added, with the placeholder for `group_root_id`.
abbrev pub new_company : CompanyCreate → ℕ → ℕ → Company
new_company payload id now = record {
  id = id;
  name = payload.name;
  ticker = payload.ticker;
  parent_company_id = payload.parent_company_id;
  group_root_id = 0;
  created_at = now;
  updated_at = now;
}

-- The row once the group's root is known.
abbrev pub resolved_company : CompanyCreate → Option Company → Database → Company
resolved_company payload parent db =
    let company = new_company payload db.company_seq db.now in
    record company { group_root_id = group_root_of parent company.id }

-- `db.add`, `flush`, the group's root, `commit`. The id is taken from the sequence before the
-- constraints are checked, and stays taken.
unfoldable pub insert_company : CompanyCreate → Option Company → Exec Database Company
insert_company payload parent db =
    let company = resolved_company payload parent db in
    let taken : Database = record db { company_seq = suc db.company_seq } in
    if ticker_free company.id company.ticker db.companies
      && parent_exists company.parent_company_id db.companies
    then (ok company, record taken { companies = db.companies ++ company ∷ [] })
    else (err (value_error (ticker_taken (some payload.ticker))), taken)

unfoldable pub create_company : CompanyCreate → Exec Database Company
unfolding get_parent insert_company
create_company payload = do
  parent ← get_parent payload.parent_company_id
  insert_company payload parent

abbrev pub same_parent : Option ℕ → Option ℕ → Bool
same_parent none none = true
same_parent (some p) (some q) = p == q
same_parent none (some q) = false
same_parent (some p) none = false

-- The branch for a new parent: the three refusals, and the new parent with the new group root.
unfoldable pub reparent : Company → Option ℕ → Exec Database (Option ℕ × ℕ)
unfolding get_parent
reparent company new_parent_id = do
  raise_if (same_parent new_parent_id (some company.id)) (value_error own_parent)
  subsidiary_count ← gets (λ db. count_subsidiaries company.id db.companies)
  raise_if (ltb 0 subsidiary_count) (value_error (cannot_reparent company.name subsidiary_count))
  parent ← get_parent new_parent_id
  pure (new_parent_id, group_root_of parent company.id)

-- `if "parent_company_id" in fields and fields["parent_company_id"] != company.parent_company_id`
unfoldable pub resolve_parent : Company → Sent ℕ → Exec Database (Option ℕ × ℕ)
unfolding reparent
resolve_parent company unset = pure (company.parent_company_id, company.group_root_id)
resolve_parent company (sent p) =
    if same_parent p company.parent_company_id
    then pure (company.parent_company_id, company.group_root_id)
    else reparent company p

-- `if field in fields: company.field = fields[field]`
abbrev pub updated : Sent String → String → Option String
updated unset old = some old
updated (sent v) old = v

-- `fields.get("ticker")`
abbrev pub sent_value : {A : Type 0} → Sent A → Option A
sent_value unset = none
sent_value (sent v) = v

-- The UPDATE at the commit, if anything differs: `updated_at` is set with it.
unfoldable pub stamped : Company → Company → ℕ → Company
stamped old new now =
    if old.name == new.name
      && old.ticker == new.ticker
      && same_parent old.parent_company_id new.parent_company_id
      && old.group_root_id == new.group_root_id
    then old
    else record new { updated_at = now }

-- The commit of a row whose name or ticker may have been set to None, which the columns refuse.
unfoldable pub commit_company :
    Company → Option String → Option String → Option String → Option ℕ × ℕ → Exec Database Company
unfolding stamped
commit_company company wanted (some name) (some ticker) (parent_id, root_id) db =
    let new : Company = record company {
      name = name;
      ticker = ticker;
      parent_company_id = parent_id;
      group_root_id = root_id;
    } in
    let row = stamped company new db.now in
    if ticker_free company.id ticker db.companies && parent_exists parent_id db.companies
    then (ok row, record db { companies = replace_company row db.companies })
    else (err (value_error (ticker_taken wanted)), db)
commit_company company wanted none ticker _ db = (err (value_error (ticker_taken wanted)), db)
commit_company company wanted (some name) none _ db = (err (value_error (ticker_taken wanted)), db)

unfoldable pub update_company : Company → CompanyUpdate → Exec Database Company
unfolding resolve_parent commit_company
update_company company payload = do
  resolved ← resolve_parent company payload.parent_company_id
  commit_company company (sent_value payload.ticker) (updated payload.name company.name)
      (updated payload.ticker company.ticker) resolved

-- The row goes, and by ON DELETE CASCADE its balance sheets.
unfoldable pub delete_row : Company → Exec Database Unit
delete_row company db = (
  ok tt,
  record db {
    companies = remove_company_row company.id db.companies;
    balance_sheets = select (λ b. not (b.company_id == company.id)) db.balance_sheets;
  },
)

unfoldable pub delete_company : Company → Exec Database Unit
unfolding delete_row
delete_company company = do
  subsidiary_count ← gets (λ db. count_subsidiaries company.id db.companies)
  raise_if (ltb 0 subsidiary_count) (value_error (cannot_delete company.name subsidiary_count))
  delete_row company
