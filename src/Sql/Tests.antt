-- ===== src/Sql/Tests.antt =====
-- Texts that are prepared for paging.
use trolley.Base.{ℕ, ◌≡◌, Bool, ◌&&◌, ◌||◌, leb, some, List, codes, Result}
use trolley.Sql.{pagination_query}
use trolley.Sql.Progress.{pagination_query_total}

abbrev is_alnum : ℕ → Bool
is_alnum c = (leb b'a' c && leb c b'z') || (leb b'0' c && leb c b'9')

abbrev statement : List ℕ
statement = codes "select ';' -- ;\n from t; -- end"

abbrev prepared : List ℕ
prepared = codes "select ';' -- ;\n from t  -- end"

pagination_query_total_example :
    (r : Result (List ℕ)) × (pagination_query is_alnum statement ≡ some r)
pagination_query_total_example = pagination_query_total is_alnum statement
