-- ===== src/Registry/Sample.antt =====
-- A table of tools as a list, and the registry before it loads.
use trolley.Base.{
  map, ◌∙◌, String, Bool, true, false, not, ◌≡◌, refl, ◌||◌, Option, none, List, [], ◌∷◌, find,
  filter, str_eq, eq_iff, if◌then◌else◌, arith,
}
use trolley.Registry.{ToolServer, Tool, Registry, is_reserved}
use trolley.Registry.Synced.{IsSynced}
use trolley.Executions.{is_some}
use trolley.Tools.{SystemToolName, system_tools, tool_name, system_tool}

abbrev pub found : String → List Tool → Option Tool
found n s = find (λ t. str_eq t.name n) s

abbrev pub removed : String → List Tool → List Tool
removed m s = filter (λ t. not (str_eq t.name m)) s

pub found-removed :
    (m : String) (s : List Tool) (n : String)
    → found n (removed m s) ≡ (if str_eq m n then none else found n s)
found-removed m [] n = ground arith
found-removed m (t ∷ s) n =
    ground (arith, found-removed m s n, eq_iff t.name m, eq_iff t.name n, eq_iff m n)

abbrev pub server : ToolServer
server = record {
  Table = List Tool;
  find_tool = found;
  add_tool = λ t s. t ∷ s;
  remove_tool = removed;
  find-add = λ t s n e. refl;
  find-remove = found-removed;
}

abbrev pub system_entry : SystemToolName → Tool
system_entry t = record { name = tool_name t; description = ""; signature = []; parameters = [] }

found-entries :
    (ts : List SystemToolName) (n : String)
    → is_some (found n (map system_entry ts)) ≡ is_some (find (λ t. str_eq (tool_name t) n) ts)
found-entries [] n = refl
found-entries (t ∷ ts) n = ground (arith, found-entries ts n)

-- The registry before it loads: only the system tools are there.
abbrev pub started : Registry server
started = record { table = map system_entry system_tools; names = [] }

or_false : (b : Bool) → b ≡ (b || false)
or_false true = refl
or_false false = refl

pub started-IsSynced : IsSynced server started
unfolding system_tool
started-IsSynced = record {
  tools = λ n. found-entries system_tools n ∙ or_false (is_reserved n);
  unreserved = λ n m. cc;
}
