-- ===== src/Registry.antt =====
-- mcp/registry.py and mcp/schema.py: the tools that operations become. The table of tools belongs to
-- the MCP library and is an interface with the laws of a table.
pub mod Signature
pub mod Synced
pub mod Offered
pub mod Unions
pub mod Sample
mod Tests
use trolley.Base.{
  ℕ, String, Bool, true, false, not, ◌&&◌, ◌||◌, ◌≡◌, Option, none, some, List, [], ◌∷◌, ◌++◌,
  filter, map, any, length, contains, str_eq, str_append, cat, join, value_error, external_error,
  does_not_exist, Error, Result, ok, err, Json, Dict, get, if◌then◌else◌, ltb,
}
use Prim.Native.String
use Prim.Native.Nat.{Ordering}
use trolley.Catalog.{Catalog, Operation, Target}
use trolley.Tools.{system_tool}
use trolley.Executions.{is_some, is_given, operation_named, target_by_id}
use trolley.Definitions.{is_file}
unfoldable pub use Signature.*

-- What `add_tool` is given, and the schema that replaces its own.
pub record Tool : Type 0 where
  pub name : String
  pub description : String
  pub signature : List Parameter
  pub parameters : Dict Json

-- The table of the MCP server: what is registered under a name.
pub record ToolServer : Type 1 where
  pub Table : Type 0
  pub find_tool : String → Table → Option Tool
  pub add_tool : Tool → Table → Table
  pub remove_tool : String → Table → Table
  -- A new name is added and a name that is there is removed; other names stay.
  pub find-add :
      (t : Tool) (s : Table) (n : String)
      → find_tool t.name s ≡ none
      → find_tool n (add_tool t s) ≡ (if str_eq t.name n then some t else find_tool n s)
  pub find-remove :
      (m : String) (s : Table) (n : String)
      → find_tool n (remove_tool m s) ≡ (if str_eq m n then none else find_tool n s)

abbrev pub is_reserved : String → Bool
is_reserved name = is_some (system_tool name)

-- `order_by("name")`
abbrev pub insert_by_name : Operation → List Operation → List Operation
insert_by_name o [] = o ∷ []
insert_by_name o (p ∷ ps) = elim (String.compare o.name p.name) [
  | Ordering.gt ↦ p ∷ insert_by_name o ps
  | _ ↦ o ∷ p ∷ ps
]

abbrev pub by_name : List Operation → List Operation
by_name [] = []
by_name (o ∷ os) = insert_by_name o (by_name os)

-- An active operation of an active target.
abbrev pub is_offered : Catalog → Operation → Bool
is_offered c o =
    o.is_active && (elim (target_by_id o.target c) [ none ↦ false | some t ↦ t.is_active ])

abbrev pub file_note : String
file_note =
    " Generates a JSONL.gz file. Confirm scope/content before execution. Poll get_execution with the returned execution_id; do not re-execute to poll."

abbrev pub page_note : String
page_note =
    " Returns the first page. If has_more is true, continue with execute using next_cursor as cursor and identical arguments. Pages are not a snapshot."

abbrev pub tool_description : Operation → String
tool_description o = cat (
    o.description
    ∷ (if is_file o.definition then file_note else "")
    ∷ (if is_given "pagination" o.definition then page_note else "")
    ∷ [])

module _ (server : ToolServer) where
  open server use {Table, find_tool, add_tool, remove_tool}

  pub record Registry : Type 0 where
    pub table : Table
    pub names : List String

  -- What a method returns or raises, and the registry that it leaves.
  abbrev pub Method : Type 0 → Type 0
  Method A = Registry → Result A × Registry

  abbrev pub tool_of : Operation → List Parameter → Tool
  tool_of o signature = record {
    name = o.name;
    description = tool_description o;
    signature = signature;
    parameters = o.input_schema;
  }

  unfoldable pub register : Operation → Method (Unit {0})
  register o r =
      if is_reserved o.name
      then (
        err (value_error (str_append "Operation name is reserved by a system tool: " o.name)),
        r,
      )
      else if contains r.names o.name
      then (ok tt, r)
      else elim (tool_signature o.input_schema) [
        | err e ↦ (err e, r)
        | ok signature ↦ (
          ok tt,
          record { table = add_tool (tool_of o signature) r.table; names = o.name ∷ r.names },
        )
      ]

  unfoldable pub register_all : List Operation → Method (Unit {0})
  unfolding register
  register_all [] r = (ok tt, r)
  register_all (o ∷ os) r =
      let (s, r') = register o r in elim s [ err e ↦ (err e, r') | ok _ ↦ register_all os r' ]

  abbrev pub remove_all : List String → Table → Table
  remove_all [] s = s
  remove_all (n ∷ ns) s = remove_all ns (remove_tool n s)

  abbrev pub offered : Catalog → List Operation
  offered c = by_name (filter (is_offered c) c.operations)

  abbrev pub conflicts : List Operation → List String
  conflicts os = map (λ (o : Operation). o.name) (filter (λ (o : Operation). is_reserved o.name) os)

  abbrev pub cleared : Registry → Registry
  cleared r = record { table = remove_all (Registry.names r) (Registry.table r); names = [] }

  unfoldable pub load : Catalog → Method ℕ
  load c r = elim (conflicts (offered c)) [
    | x ∷ xs ↦ (
      err (value_error (str_append "Operations conflict with system tools: " (join ", " (x ∷ xs)))),
      r,
    )
    | [] ↦
        let (s, r') = register_all (offered c) (cleared r) in
        elim s [ err e ↦ (err e, r') | ok _ ↦ (ok (length (Registry.names r')), r') ]
  ]

  -- `self.server.remove_tool(name)` and `self.names.remove(name)`, if the name is there.
  abbrev pub forget : String → Registry → Registry
  forget name r =
      if contains (Registry.names r) name
      then record {
        table = remove_tool name (Registry.table r);
        names = filter (λ n. not (str_eq n name)) (Registry.names r);
      }
      else r

  unfoldable pub reload : String → Catalog → Method (Unit {0})
  unfolding register
  reload name c r = elim (operation_named name c) [
    | none ↦ (err does_not_exist, r)
    | some o ↦ if is_offered c o then register o (forget name r) else (ok tt, forget name r)
  ]
