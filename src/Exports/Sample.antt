-- ===== src/Exports/Sample.antt =====
-- A service over the sample catalog with an operation that writes a file, and with one file.
use trolley.Base.{String, [], ◌∷◌, str, List, some}
use trolley.Catalog.{ExportJob, JobStatus}
use trolley.Catalog.Sample.{sample, report}
use trolley.Executions.{Compiled}
use trolley.Exports.{Service}

abbrev pub no_parameters : Compiled → List String
no_parameters _ = []

abbrev pub idle : Service
idle = record {
  catalog = record sample {
    operations = record report { definition = ("output", str "file") ∷ [] } ∷ [];
  };
  files = [];
  tasks = [];
}

abbrev pub done : ExportJob
done = record {
  id = 3;
  operation = 60;
  user_id = 1;
  api_key_id = 10;
  arguments = [];
  fingerprint = "fingerprint";
  status = JobStatus.succeeded;
  row_count = 1;
  byte_count = 20;
  file_bytes = 40;
  expires_at = 60;
  finished_at = some 4;
}

abbrev pub with_file : Service
with_file = record idle { catalog = record idle.catalog { jobs = done ∷ [] }; files = 3 ∷ [] }
