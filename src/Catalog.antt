-- ===== src/Catalog.antt =====
-- The catalog: persistence/models.py, with the enumerations of domain/ and auth/. A table is the
-- list of its rows, a UUID is a number, and a foreign key holds the id of the row it names. The
-- creation time is kept where the program reads it back.
pub mod Enums
pub mod Monad
pub mod Sample
pub use Enums.*
use trolley.Base.{ℕ, String, Bool, Option, List, Json, Dict, ℤ}

pub record User : Type 0 where
  pub id : ℕ
  pub email : String
  pub name : String
  pub role : UserRole
  pub is_active : Bool

pub record ApiKey : Type 0 where
  pub id : ℕ
  pub user : ℕ
  pub name : String
  pub secret_hash : String
  pub key_prefix : String
  pub is_active : Bool

pub record Target : Type 0 where
  pub id : ℕ
  pub name : String
  pub kind : TargetKind
  pub is_active : Bool

pub record TargetNotes : Type 0 where
  pub target : ℕ
  pub description : String
  pub data_notes : String
  pub version : ℕ
  pub updated_by : Option ℕ
  pub updated_at : Option ℕ

-- What `present` of target_notes.py returns, which a revision stores twice.
pub record NotesView : Type 0 where
  pub description : String
  pub data_notes : String
  pub version : ℕ
  pub updated_by : Option ℕ
  pub updated_at : Option ℕ

pub record TargetNotesRevision : Type 0 where
  pub id : ℕ
  pub target : ℕ
  pub version : ℕ
  pub before : NotesView
  pub after : NotesView
  pub updated_by : ℕ

pub record GroupTargetGrant : Type 0 where
  pub id : ℕ
  pub group : ℕ
  pub target : ℕ

pub record QueryExecution : Type 0 where
  pub id : ℕ
  pub target : ℕ
  pub requested_by : ℕ
  pub api_key_id : ℕ
  pub sql : String
  pub status : QueryStatus
  pub error : Option String
  pub finished_at : Option ℕ

pub record Operation : Type 0 where
  pub id : ℕ
  pub target : ℕ
  pub name : String
  pub description : String
  pub input_schema : Dict Json
  pub definition : Dict Json
  pub is_active : Bool

pub record Group : Type 0 where
  pub id : ℕ
  pub name : String
  pub description : String

pub record GroupMembership : Type 0 where
  pub id : ℕ
  pub group : ℕ
  pub user : ℕ

pub record PageCursor : Type 0 where
  pub id : ℕ
  pub operation : ℕ
  pub user_id : ℕ
  pub fingerprint : String
  pub offset : ℕ
  pub page_size : ℕ
  pub expires_at : ℕ

pub record ExecutionPage : Type 0 where
  pub id : ℕ
  pub execution : ℕ
  pub offset : ℕ
  pub page_size : ℕ
  pub input_cursor : Option String
  pub query_fingerprint : String

pub record ExportJob : Type 0 where
  pub id : ℕ
  pub operation : ℕ
  pub user_id : ℕ
  pub api_key_id : ℕ
  pub arguments : Dict Json
  pub fingerprint : String
  pub status : JobStatus
  pub row_count : ℕ
  pub byte_count : ℕ
  pub file_bytes : ℕ
  pub expires_at : ℕ
  pub finished_at : Option ℕ

pub record Execution : Type 0 where
  pub id : ℕ
  pub operation : ℕ
  pub arguments : Dict Json
  pub status : ExecutionStatus
  pub result : Option (Dict Json)
  pub error : Option String
  pub requested_by : ℕ
  pub api_key_id : ℕ
  pub created_at : ℕ
  pub finished_at : Option ℕ

-- The tables. `next_id` stands for the supply of fresh UUIDs.
pub record Catalog : Type 0 where
  pub users : List User
  pub api_keys : List ApiKey
  pub targets : List Target
  pub target_notes : List TargetNotes
  pub revisions : List TargetNotesRevision
  pub grants : List GroupTargetGrant
  pub queries : List QueryExecution
  pub operations : List Operation
  pub groups : List Group
  pub memberships : List GroupMembership
  pub cursors : List PageCursor
  pub pages : List ExecutionPage
  pub jobs : List ExportJob
  pub executions : List Execution
  pub next_id : ℕ
