-- ===== src/Lib.antt =====
-- Companies, their balance sheets and the policies that decide who sees them: a FastAPI backend
-- over PostgreSQL. A company may have a parent; `group_root_id` keeps the id of its top-most
-- ancestor, so that a policy may be for a group. Balance sheets are imported from yfinance. Every
-- access is decided from the user's active policies by the policy engine, and lists are filtered
-- by one scope made from the same policies.
--
-- Files, with the code that each is about (paths from the repository's root):
--   Tables: the rows and the database that every handler changes (backend/app/companies/
--     company_model.py, backend/app/balance_sheets/balance_sheet_model.py,
--     backend/mystic_auth/authorization/models).
--   Exec: handlers as functions from a database to a result and a database; what a handler wrote
--     before an exception stays. A transaction that is rolled back gives the old rows back by its
--     own clauses, but keeps the ids that its sequences have handed out.
--   Json: values of JSONB columns with Python's truth value, equality and hashing. Numbers are
--     integers.
--   Access: backend/app/access. Permissions has the action names, Scope `resource_scope_dict` and
--     `get_company_scope` after its query, Scope/Laws, Agreement and Plain the theorems.
--   Policies: backend/mystic_auth/authorization. Conditions has the registry, the evaluation
--     service and the handlers, Conditions/Validator condition_validator.py; Engine has
--     policy_evaluator.py; Repository the two queries that an access runs; Service `authorize`,
--     `require` and their audit entry; Names the lists of policy and action names; Grant the
--     guard against handing out actions that the caller does not hold.
--   Policies/Store: policy_repository.py and policy_history_repository.py. Rows has the
--     definitions and constraints, Mutations `create`, `update` and `delete` with their history
--     entries, Assignments the links to users, Replay the definitions that a history describes.
--   Policies/Cache: caching/authorization_cache_service.py and the query behind it. Laws has what
--     is asked of the Redis client and what it is for a cache to be coherent with the database,
--     Invalidation and Precision which changes leave entries of it right.
--   Policies/Context: the context that a request's checks get, with the client's address
--     (backend/mystic_auth/auth/security/client_ip.py).
--   Policies/Admin: backend/mystic_auth/api/pbac_routes but for the audit log. Crud, History,
--     Assignment and Check have the handlers, Steps and Answers the lemmas on how each ends.
--   Policies/Managed: what every state that those handlers lead to satisfies, its preservation by
--     each of them, and what follows for checks, grants and rollbacks.
--   Companies: backend/app/companies/company_crud.py. Rows has the table's operations and
--     constraints, Crud the functions, Tickers those that ask yfinance, Listing the list and its
--     count (Order, Unique and Stable are about the order of its rows, for any collation),
--     Hierarchy the relation of a company to its root, Invariant and Preserves the theorems.
--   Llm: backend/app/llm/llm_service.py, the grounding of a question and the call of the chat API.
--   BalanceSheets: backend/app/balance_sheets. FieldMap, Columns and Declared have the lists of
--     column names, Sanitize and Crud the functions, Preserves, Fetched, Stored and
--     Figures the theorems.
--   Routes: backend/app/api. Guard has the check that every handler of one company starts with,
--     Company, Sheet, Listing, Tickers and Chat the handlers, Reachable sequences of requests.
--   Seed: backend/app/seed/seed_base_policies.py.
--   Validity: what every state of the tables satisfies.
--   Examples, and the modules named Tests: small databases, runs, and theorems applied to them.
--
-- Ids, years and times are natural numbers with no bound. No function of the model needs fuel: all
-- of them are structural recursions on lists or JSON values.
--
-- Parameters: what yfinance answers and the driver stores; the chat API with httpx and the
-- formatting of numbers (Llm); Python's parsing of times, dates, zones and addresses with the
-- clock (Policies/Conditions/Library); ILIKE and the collation of texts (Companies/Listing); the
-- Redis client and JSON's texts (Policies/Cache), with the laws named there.
--
-- Not modelled: the demo data of backend/app/seed; rate limits; the time at which a cache entry
-- expires, and which change flushes which entries; a resource_type that is null in a PUT;
-- failures of the audit log's own writes; FastAPI, SQLAlchemy and PostgreSQL beyond the
-- constraints written in Companies/Rows, BalanceSheets/Crud and Policies/Store; two requests at
-- once; the rest of backend/mystic_auth (log-in, sessions, e-mail, the listing of the audit
-- log); the frontend. An object's fields keep the order in which they were written.
pub mod Prelude
pub mod Exec
pub mod Json
pub mod Tables
pub mod Access
pub mod Policies
pub mod Companies
pub mod Llm
pub mod Seed
pub mod BalanceSheets
pub mod Routes
pub mod Validity
pub mod Examples
