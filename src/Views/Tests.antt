-- ===== src/Views/Tests.antt =====
-- The list of the sample catalog.
use trolley.Base.{◌≡◌, ◌↔◌, In, true, contains, keys}
use trolley.Catalog.{Operation, UserRole, role_eq}
use trolley.Catalog.Sample.{sample, report}
use trolley.Pagination.Sample.{uuid}
use trolley.Access.{can_access_operation}
use trolley.Executions.Sample.{admin}
use trolley.Registry.{is_offered}
use trolley.Views.{view_for, list_operations}
use trolley.Views.Listed.{list_operations_iff}

list_operations_iff_example :
    (In (view_for uuid admin sample report) (list_operations uuid admin sample) ↔ (
      (o : Operation) × In o sample.operations
      × (is_offered sample o ≡ true)
      × (can_access_operation admin o sample ≡ true)
      × (view_for uuid admin sample report ≡ view_for uuid admin sample o)))
    × (In (view_for uuid admin sample report) (list_operations uuid admin sample)
        → contains (keys (view_for uuid admin sample report)) "definition"
          ≡ role_eq admin.role UserRole.admin)
list_operations_iff_example =
    list_operations_iff uuid admin sample (view_for uuid admin sample report)
