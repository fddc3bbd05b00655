-- ===== src/Catalog/Sample.antt =====
-- A small catalog that the tests share.
use trolley.Base.{String, true, false, some, [], ◌∷◌, str_append}
use trolley.Catalog.{Catalog, User, Target, TargetNotes, Group, Operation, UserRole, TargetKind}

abbrev pub ann : User
ann = record { id = 1; email = "ann@x.org"; name = "Ann"; role = UserRole.admin; is_active = true }

abbrev pub bob : User
bob = record { id = 2; email = "bob@x.org"; name = "Bob"; role = UserRole.user; is_active = true }

abbrev pub sales : Target
sales = record { id = 20; name = "sales"; kind = TargetKind.postgresql; is_active = true }

abbrev pub archive : Target
archive = record { id = 21; name = "archive"; kind = TargetKind.postgresql; is_active = false }

abbrev pub analysts : Group
analysts = record { id = 30; name = "analysts"; description = "" }

abbrev pub report : Operation
report = record {
  id = 60;
  target = 20;
  name = "report";
  description = "";
  input_schema = [];
  definition = [];
  is_active = true;
}

abbrev pub notes : TargetNotes
notes = record {
  target = 20;
  description = "Orders";
  data_notes = "";
  version = 1;
  updated_by = some 1;
  updated_at = some 5;
}

-- A stand-in for the digest of a secret.
abbrev pub hash : String → String
hash s = str_append "#" s

abbrev pub sample : Catalog
sample = record {
  users = ann ∷ bob ∷ [];
  api_keys =
      record {
        id = 10;
        user = 1;
        name = "laptop";
        secret_hash = "#ann";
        key_prefix = "ann";
        is_active = true;
      }
      ∷ [];
  targets = sales ∷ archive ∷ [];
  target_notes = notes ∷ [];
  revisions = [];
  grants = record { id = 50; group = 30; target = 20 } ∷ [];
  queries = [];
  operations = report ∷ [];
  groups = analysts ∷ [];
  memberships =
      record { id = 40; group = 30; user = 1 } ∷ record { id = 41; group = 30; user = 2 } ∷ [];
  cursors = [];
  pages = [];
  jobs = [];
  executions = [];
  next_id = 100;
}
