-- ===== src/Executions/Status.antt =====
-- application/execution_status.py: the state of one execution, for its owner. Whether the execution
-- service for files is there is an argument; what it answers is asked of it (Exports).
use trolley.Base.{
  ℕ, String, Bool, true, not, ◌&&◌, ◌||◌, Option, none, some, In, find, find-In, ◌==◌, ◌≡◌, inl,
  inr, value_error, permission_error, does_not_exist, Result, ok, ◌>>=◌, ◌>>◌, raise_if, or_raise,
  arith, Option-cases, Bool-cases,
}
use trolley.Catalog.{Catalog, ApiKey, User, Operation, Execution, ExecutionStatus}
use trolley.Access.{AuthContext, can_access_operation}
use trolley.Auth.{user_by_id}
use trolley.Pagination.{UuidText}
use trolley.Executions.{target_by_id}

pub record StatusView : Type 0 where
  pub execution_id : ℕ
  pub status : ExecutionStatus
  pub created_at : ℕ
  pub finished_at : Option ℕ

-- The state of an inline execution, or the question to the export service.
pub data StatusAnswer : Type 0 where
  view : StatusView → StatusAnswer
  ask_exports : AuthContext → StatusAnswer

-- `ApiKey.get_or_none(id=…, user_id=…, is_active=True)`
abbrev pub caller_key : AuthContext → Catalog → Option ApiKey
caller_key context c =
    find (λ k. k.id == context.api_key_id && (k.user == context.user_id && k.is_active)) c.api_keys

abbrev pub own_execution : ℕ → AuthContext → Catalog → Option Execution
own_execution i context c = find (λ e. e.id == i && e.requested_by == context.user_id) c.executions

abbrev pub operation_of : Execution → Catalog → Option Operation
operation_of e c = find (λ o. o.id == e.operation) c.operations

abbrev pub present_execution : Execution → StatusView
present_execution e = record {
  execution_id = e.id;
  status = e.status;
  created_at = e.created_at;
  finished_at = e.finished_at;
}

abbrev pub current_context : User → ApiKey → AuthContext
current_context user key = record { user_id = user.id; api_key_id = key.id; role = user.role }

-- The part with a row of the caller's.
unfoldable pub present_own : AuthContext → Execution → Catalog → Result StatusAnswer
present_own current e c = do
  operation ← or_raise (operation_of e c) does_not_exist
  target ← or_raise (target_by_id operation.target c) does_not_exist
  raise_if
      (not operation.is_active
        || (not target.is_active || not (can_access_operation current operation c)))
      (permission_error "Execution access denied")
  ok (view (present_execution e))

unfoldable pub get_execution :
    UuidText → Bool → String → AuthContext → Catalog → Result StatusAnswer
unfolding present_own
get_execution uuid has_exports execution_id context c = do
  identifier ← or_raise (uuid.parse execution_id) (value_error "Execution not found")
  key ← or_raise (caller_key context c) (permission_error "Execution access denied")
  user ← or_raise (user_by_id key.user c) (permission_error "Execution access denied")
  raise_if (not user.is_active) (permission_error "Execution access denied")
  let current = current_context user key
  elim (own_execution identifier context c) [
    | none ↦
        raise_if (not has_exports) (value_error "Execution not found") >> ok (ask_exports current)
    | some e ↦ present_own current e c
  ]

-- Why a state is shown: the execution is the caller's own, by a key that is still active, and its
-- operation is active, on an active target, and within the caller's reach today.
pub record IsShown (context : AuthContext) (c : Catalog) (shown : StatusView) : Type 0 where
  pub execution : Execution
  pub listed : In execution c.executions
  pub own : execution.requested_by ≡ context.user_id
  pub operation : Operation
  pub made_by : operation_of execution c ≡ some operation
  pub operation_active : operation.is_active ≡ true
  pub key : ApiKey
  pub key_found : caller_key context c ≡ some key
  pub user : User
  pub owner : user_by_id key.user c ≡ some user
  pub user_active : user.is_active ≡ true
  pub access : can_access_operation (current_context user key) operation c ≡ true
  pub same : shown ≡ present_execution execution

present_own-IsShown :
    (context : AuthContext) (key : ApiKey) (user : User) (e : Execution) (c : Catalog)
    (shown : StatusView)
    → caller_key context c ≡ some key
    → user_by_id key.user c ≡ some user
    → user.is_active ≡ true
    → In e c.executions
    → e.requested_by ≡ context.user_id
    → present_own (current_context user key) e c ≡ ok (view shown)
    → IsShown context c shown
unfolding present_own
present_own-IsShown context key user e c shown key_found owner user_active m own h =
    elim (Option-cases (operation_of e c)) [
      | inl f ↦ absurd (ground (arith, f, h))
      | inr (o, f) ↦ elim (Option-cases (target_by_id o.target c)) [
        | inl g ↦ absurd (ground (arith, f, g, h))
        | inr (t, g) ↦
            elim (Bool-cases (
              not o.is_active
              || (not t.is_active || not (can_access_operation (current_context user key) o c)))) [
                | inl refused ↦ absurd (ground (arith, f, g, refused, h))
                | inr open_now ↦ record {
                  execution = e;
                  listed = m;
                  own = own;
                  operation = o;
                  made_by = f;
                  operation_active = ground (arith, open_now);
                  key = key;
                  key_found = key_found;
                  user = user;
                  owner = owner;
                  user_active = user_active;
                  access = ground (arith, open_now);
                  same = ground (arith, f, g, open_now, h);
                }
              ]
      ]
    ]

-- The state of an execution is shown only to the user who asked for it, with an active key and
-- while its operation is active and in the user's reach; the view is that of the stored row.
pub get_execution-IsShown :
    (uuid : UuidText) (has_exports : Bool) (execution_id : String) (context : AuthContext)
    (c : Catalog) (shown : StatusView)
    → get_execution uuid has_exports execution_id context c ≡ ok (view shown)
    → IsShown context c shown
unfolding get_execution
get_execution-IsShown uuid has_exports execution_id context c shown h =
    elim (Option-cases (uuid.parse execution_id)) [
      | inl e ↦ absurd (ground (arith, e, h))
      | inr (i, e) ↦ elim (Option-cases (caller_key context c)) [
        | inl f ↦ absurd (ground (arith, e, f, h))
        | inr (key, f) ↦ elim (Option-cases (user_by_id key.user c)) [
          | inl g ↦ absurd (ground (arith, e, f, g, h))
          | inr (user, g) ↦ elim (Bool-cases user.is_active) [
            | inr off ↦ absurd (ground (arith, e, f, g, off, h))
            | inl on ↦ found i e key f user g on
          ]
        ]
      ]
    ]
  where
    found :
        (i : ℕ)
        → uuid.parse execution_id ≡ some i
        → (key : ApiKey) → caller_key context c ≡ some key
        → (user : User) → user_by_id key.user c ≡ some user
        → user.is_active ≡ true
        → IsShown context c shown
    found i e key f user g on = elim (Option-cases (own_execution i context c)) [
      | inl missing ↦ absurd (elim (Bool-cases has_exports) [
        | inl there ↦ ground (arith, e, f, g, on, missing, there, h)
        | inr gone ↦ ground (arith, e, f, g, on, missing, gone, h)
      ])
      | inr (x, found_row) ↦
          let (m, t) =
            find-In (λ y. y.id == i && y.requested_by == context.user_id) c.executions x
              found_row in
          present_own-IsShown context key user x c shown f g on m (ground (arith, t))
            (ground (arith, e, f, g, on, found_row, h))
    ]
