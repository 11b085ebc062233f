-- ===== src/Policies/Cache/Tests.antt =====
-- The theorems about the cache applied to a server that keeps a list.
use balance_sheet_analysis.Prelude.{false, true, true, false, ◌≡◌, refl, none, [], ◌∷◌}
use balance_sheet_analysis.Prelude.Equality.{string_eq}
use balance_sheet_analysis.Json.{null}
use balance_sheet_analysis.Access.Tests.{no_library}
use balance_sheet_analysis.Policies.Engine.{evaluate_detailed}
use balance_sheet_analysis.Policies.Repository.{active_policies}
use balance_sheet_analysis.Policies.Managed.Example.{reader, seeded, seeded-Managed}
use balance_sheet_analysis.Policies.Store.Mutations.{create}
use balance_sheet_analysis.Policies.Cache.{
  flush, user_policies_key, cached_active_policies, set_user_policies, invalidate_all_user_policies,
  delete_keys,
}
use balance_sheet_analysis.Policies.Store.Assignments.{
  assign_policy_to_user, remove_policy_from_user,
}
use balance_sheet_analysis.Policies.Cache.Precision.{assignments-active_policies}
use balance_sheet_analysis.Policies.Cache.Laws.{Coherent}
use balance_sheet_analysis.Policies.Cache.Decides.{evaluate_detailed-cached_active_policies}
use balance_sheet_analysis.Policies.Cache.Invalidation.{
  invalidate_all-Coherent, create-active_policies,
}
use balance_sheet_analysis.Policies.Cache.Memory.{
  nothing_cached, Unsteady, in_memory, in_memory_laws,
}

-- An empty cache, whose second call raises.
abbrev nothing : Unsteady
nothing = ([], false ∷ true ∷ [])

evaluate_detailed-cached_active_policies_example :
    (evaluate_detailed no_library "policies:read" "company" "root" none none
        (cached_active_policies in_memory "root" seeded nothing).0
      ≡ evaluate_detailed no_library "policies:read" "company" "root" none none
          (active_policies seeded "root"))
    × Coherent in_memory in_memory_laws seeded
        (cached_active_policies in_memory "root" seeded nothing).1
evaluate_detailed-cached_active_policies_example =
    evaluate_detailed-cached_active_policies no_library "policies:read" "company" "root" none none
      in_memory in_memory_laws seeded nothing (nothing_cached seeded (false ∷ true ∷ []))

-- An entry that is out of date, and one under a key that is not the cache's.
abbrev stale : Unsteady
stale =
    set_user_policies in_memory "guest" (active_policies seeded "root") (("other", null) ∷ [], [])

invalidate_all-Coherent_example :
    Coherent in_memory in_memory_laws seeded (invalidate_all_user_policies in_memory stale).1
unfolding invalidate_all_user_policies set_user_policies flush delete_keys user_policies_key
invalidate_all-Coherent_example = invalidate_all-Coherent in_memory in_memory_laws seeded stale refl

create-active_policies_example :
    active_policies (create reader "root" seeded).1 "root" ≡ active_policies seeded "root"
create-active_policies_example = create-active_policies reader "root" "root" seeded seeded-Managed

assignments-active_policies_example :
    (active_policies (assign_policy_to_user 2 3 none seeded).1 "root"
      ≡ active_policies seeded "root")
    × (active_policies (remove_policy_from_user 2 3 seeded).1 "root"
        ≡ active_policies seeded "root")
assignments-active_policies_example = assignments-active_policies 2 3 "root" seeded refl none
