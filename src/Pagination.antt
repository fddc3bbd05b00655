-- ===== src/Pagination.antt =====
-- application/pagination.py: continuation tokens that are rows of the catalog. The digest of a
-- query (SHA-256 over its JSON text) and the texts of UUIDs are parameters. A time is a number of
-- microseconds.
pub mod Bounds
pub mod Cursors
pub mod Sample
mod Tests
use trolley.Base.{
  ℕ, ◌+◌, ◌≡◌, String, Bool, true, false, not, ◌&&◌, ◌||◌, Option, none, some, List, [], ◌∷◌, ◌++◌,
  filter, find, str_eq, ◌==◌, ltb, leb, min, if◌then◌else◌, value_error, Dict, Json, ℤ, pos, negsuc,
  eq_ℤ, Result, ok, err, Error,
}
use trolley.Catalog.{Catalog, Operation, PageCursor}
use trolley.Catalog.Monad.{Action, ◌>>=◌, ◌>>◌, pure, gets, get_or_raise, modify, guard, lift}
use trolley.Access.{AuthContext}

-- `UUID(text)`, with `none` where it raises, and `str(uuid)`; what is printed is read back.
pub record UuidText : Type 0 where
  pub parse : String → Option ℕ
  pub print : ℕ → String
  pub parse-print : (n : ℕ) → parse (print n) ≡ some n

-- The digest of a definition, an input schema, a target and the arguments.
abbrev pub Digest : Type 0
Digest = Dict Json → Dict Json → ℕ → Dict Json → String

unfoldable pub query_fingerprint : Digest → Operation → Dict Json → String
query_fingerprint digest operation arguments =
    digest operation.definition operation.input_schema operation.target arguments

-- `timedelta(minutes=15)`
abbrev pub cursor_lifetime : ℕ
cursor_lifetime = 900_000_000

pub record Page : Type 0 where
  pub offset : ℕ
  pub page_size : ℕ
  pub fingerprint : String
  pub expires_at : ℕ

abbrev page_size_error : Error
page_size_error = value_error "page_size must be between 1 and max_rows"

-- `1 <= page_size <= max_rows`, handing on the number that passed.
unfoldable pub check_page_size : ℤ → ℕ → Result ℕ
check_page_size (pos n) max_rows = if leb 1 n && leb n max_rows then ok n else err page_size_error
check_page_size (negsuc n) max_rows = err page_size_error

-- `page_size if page_size is not None else min(100, max_rows)`
abbrev pub first_page_size : Option ℤ → ℕ → ℤ
first_page_size none max_rows = pos (min 100 max_rows)
first_page_size (some n) max_rows = n

-- `page_size is not None and page_size != saved.page_size`
abbrev pub is_other_size : Option ℤ → ℕ → Bool
is_other_size none saved = false
is_other_size (some n) saved = not (eq_ℤ n (pos saved))

abbrev pub is_cursor : ℕ → ℕ → ℕ → String → ℕ → PageCursor → Bool
is_cursor id operation user_id fingerprint now p =
    p.id == id
    && (p.operation == operation
        && (p.user_id == user_id && (str_eq p.fingerprint fingerprint && ltb now p.expires_at)))

module _ (uuid : UuidText) (digest : Digest) where
  -- The row that a cursor names, for this operation, caller and query, if it has not expired.
  abbrev pub saved_cursor :
      Operation → AuthContext → Dict Json → ℕ → ℕ → Catalog → Option PageCursor
  saved_cursor operation context arguments cursor_id now c =
      find
        (is_cursor cursor_id operation.id context.user_id
          (query_fingerprint digest operation arguments) now)
        c.cursors

  -- The branch with a cursor.
  unfoldable pub resume_page :
      Operation → AuthContext → Dict Json → Option ℤ → String → ℕ → ℕ → Action Page
  resume_page operation context arguments page_size cursor max_rows now = do
    cursor_id ← get_or_raise (λ _. uuid.parse cursor) (value_error "Invalid page cursor")
    saved ←
        get_or_raise (saved_cursor operation context arguments cursor_id now)
          (value_error "Invalid or expired cursor, or query conditions changed")
    guard (is_other_size page_size saved.page_size)
        (value_error "Keep the same page_size when continuing a query")
    size ← lift (check_page_size (pos saved.page_size) max_rows)
    pure (record {
      offset = saved.offset;
      page_size = size;
      fingerprint = query_fingerprint digest operation arguments;
      expires_at = saved.expires_at;
    })

  unfoldable pub resolve_page :
      Operation → AuthContext → Dict Json → Option ℤ → Option String → ℕ → ℕ → Action Page
  resolve_page operation context arguments page_size (some cursor) max_rows now =
      resume_page operation context arguments page_size cursor max_rows now
  resolve_page operation context arguments page_size none max_rows now = do
    size ← lift (check_page_size (first_page_size page_size max_rows) max_rows)
    pure (record {
      offset = 0;
      page_size = size;
      fingerprint = query_fingerprint digest operation arguments;
      expires_at = now + cursor_lifetime;
    })

-- Drops the expired rows, saves one for the next page and returns its text.
unfoldable pub next_page :
    UuidText → Operation → AuthContext → ℕ → ℕ → String → ℕ → ℕ → Action String
next_page uuid operation context offset page_size fingerprint expires_at now = do
  modify (λ c. record c { cursors = filter (λ p. not (leb p.expires_at now)) c.cursors })
  id ← gets (λ c. c.next_id)
  let saved : PageCursor = record {
    id = id;
    operation = operation.id;
    user_id = context.user_id;
    fingerprint = fingerprint;
    offset = offset;
    page_size = page_size;
    expires_at = expires_at;
  }
  modify (λ c. record c { cursors = c.cursors ++ saved ∷ []; next_id = c.next_id + 1 })
  pure (uuid.print id)
