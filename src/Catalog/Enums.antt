-- ===== src/Catalog/Enums.antt =====
-- The enumerations of domain/users.py, domain/targets.py, domain/operations.py and auth/enums.py,
-- and the texts that the export and query tables hold as a status.
use trolley.Base.{Bool, true, false}

pub data UserRole : Type 0 where
  admin developer user : UserRole

pub data TargetKind : Type 0 where
  postgresql : TargetKind

pub data ExecutionStatus : Type 0 where
  running succeeded failed : ExecutionStatus

pub data QueryStatus : Type 0 where
  running succeeded failed cancelled : QueryStatus

pub data JobStatus : Type 0 where
  running succeeded failed expired : JobStatus

pub data Scope : Type 0 where
  admin use_tools query : Scope

abbrev pub role_eq : UserRole → UserRole → Bool
role_eq UserRole.admin UserRole.admin = true
role_eq UserRole.developer UserRole.developer = true
role_eq UserRole.user UserRole.user = true
role_eq _ _ = false

abbrev pub scope_eq : Scope → Scope → Bool
scope_eq Scope.admin Scope.admin = true
scope_eq Scope.use_tools Scope.use_tools = true
scope_eq Scope.query Scope.query = true
scope_eq _ _ = false

abbrev pub kind_eq : TargetKind → TargetKind → Bool
kind_eq TargetKind.postgresql TargetKind.postgresql = true
