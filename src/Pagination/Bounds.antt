-- ===== src/Pagination/Bounds.antt =====
-- What every resolved page satisfies, and when a cursor is accepted.
use trolley.Base.{
  ℕ, ◌+◌, ◌≤◌, ◌<◌, String, false, Option, none, some, ◌≡◌, In, find, find-In, arith, eq_iff,
  Option-cases, Dict, Json, ℤ, pos, negsuc, ok, inl, inr, ◌∙◌,
}
use trolley.Catalog.{Catalog, Operation, PageCursor}
use trolley.Access.{AuthContext}
use trolley.Pagination.{
  UuidText, Digest, Page, query_fingerprint, cursor_lifetime, check_page_size, first_page_size,
  is_other_size, is_cursor, saved_cursor, resume_page, resolve_page,
}

check_page_size-ok :
    (n : ℤ) (max_rows size : ℕ)
    → check_page_size n max_rows ≡ ok size
    → (n ≡ pos size) × (1 ≤ size) × (size ≤ max_rows)
unfolding check_page_size
check_page_size-ok (pos n) max_rows size h = ground arith
check_page_size-ok (negsuc n) max_rows size h = cc

pub check_page_size_in :
    (size max_rows : ℕ) → 1 ≤ size → size ≤ max_rows → check_page_size (pos size) max_rows ≡ ok size
unfolding check_page_size
check_page_size_in size max_rows h k = ground arith

module _ (uuid : UuidText) (digest : Digest) (operation : Operation) (context : AuthContext)
    (arguments : Dict Json) (page_size : Option ℤ) (max_rows now : ℕ) where
  -- Why a cursor stands for a page: a saved row of this operation, this caller and this very query,
  -- that has not expired, was saved with a size in range and is continued with that size.
  pub record Resumes (c : Catalog) (cursor : String) (page : Page) : Type 0 where
    pub saved : PageCursor
    pub listed : In saved c.cursors
    pub named : uuid.parse cursor ≡ some saved.id
    pub same_operation : saved.operation ≡ operation.id
    pub same_user : saved.user_id ≡ context.user_id
    pub same_query : saved.fingerprint ≡ query_fingerprint digest operation arguments
    pub unexpired : now < saved.expires_at
    pub same_size : is_other_size page_size saved.page_size ≡ false
    pub offset_eq : page.offset ≡ saved.offset
    pub size_eq : page.page_size ≡ saved.page_size
    pub expires_eq : page.expires_at ≡ saved.expires_at

  resume_page-Resumes :
      (cursor : String) (c : Catalog) (page : Page)
      → (resume_page uuid digest operation context arguments page_size cursor max_rows now c).0
        ≡ ok page
      → Resumes c cursor page × (1 ≤ page.page_size) × (page.page_size ≤ max_rows)
  unfolding resume_page
  resume_page-Resumes cursor c page h = elim (Option-cases (uuid.parse cursor)) [
    | inl missing ↦ ground arith
    | inr (id, named) ↦
        let test =
          is_cursor id operation.id context.user_id (query_fingerprint digest operation arguments)
            now in
        elim (Option-cases (find test c.cursors)) [
          | inl missing ↦ ground arith
          | inr (saved, found) ↦
              let (listed, good) = find-In test c.cursors saved found in
              let size : check_page_size (pos saved.page_size) max_rows ≡ ok page.page_size =
                ground arith in
              let (same, low, high) =
                check_page_size-ok (pos saved.page_size) max_rows page.page_size size in
              (
                record {
                  saved = saved;
                  listed = listed;
                  named = named ∙ ground arith;
                  same_operation = ground arith;
                  same_user = ground arith;
                  same_query = ground (
                    arith,
                    eq_iff saved.fingerprint (query_fingerprint digest operation arguments),
                  );
                  unexpired = ground arith;
                  same_size = ground arith;
                  offset_eq = ground arith;
                  size_eq = ground arith;
                  expires_eq = ground arith;
                },
                low,
                high,
              )
        ]
  ]

  -- The page that a saved row stands for.
  abbrev pub saved_page : PageCursor → Page
  saved_page p = record {
    offset = p.offset;
    page_size = p.page_size;
    fingerprint = query_fingerprint digest operation arguments;
    expires_at = p.expires_at;
  }

  pub resume_page_saved :
      (cursor : String) (id : ℕ) (c : Catalog) (p : PageCursor)
      → uuid.parse cursor ≡ some id
      → saved_cursor uuid digest operation context arguments id now c ≡ some p
      → is_other_size page_size p.page_size ≡ false
      → 1 ≤ p.page_size
      → p.page_size ≤ max_rows
      → resume_page uuid digest operation context arguments page_size cursor max_rows now c
        ≡ (ok (saved_page p), c)
  unfolding resume_page
  resume_page_saved cursor id c p named found same low high =
      ground (arith, check_page_size_in p.page_size max_rows low high)

  -- Where a page comes from: the start of a query, or a saved row.
  abbrev pub Origin : Catalog → Option String → Page → Type 0
  Origin c none page = (page.offset ≡ 0) × (page.expires_at ≡ now + cursor_lifetime)
  Origin c (some cursor) page = Resumes c cursor page

  -- A resolved page has a size between one and the row limit, is not yet expired and carries the
  -- fingerprint of this query; without a cursor it starts at the first row and expires after
  -- fifteen minutes, and with one it continues an unexpired row that was saved for this operation,
  -- caller and query, with that row's offset, size and expiry.
  pub resolve_page-Origin :
      (cursor : Option String) (c : Catalog) (page : Page)
      → (resolve_page uuid digest operation context arguments page_size cursor max_rows now c).0
        ≡ ok page
      → (1 ≤ page.page_size)
        × (page.page_size ≤ max_rows)
        × (now < page.expires_at)
        × (page.fingerprint ≡ query_fingerprint digest operation arguments)
        × Origin c cursor page
  unfolding resolve_page resume_page
  resolve_page-Origin none c page h =
      let start = first_page_size page_size max_rows in
      let size : check_page_size start max_rows ≡ ok page.page_size = ground arith in
      let (_, low, high) = check_page_size-ok start max_rows page.page_size size in
      (low, high, ground arith, ground arith, (ground arith, ground arith))
  resolve_page-Origin (some cursor) c page h =
      let (r, low, high) = resume_page-Resumes cursor c page h in
      let live = r.unexpired in
      let same = r.expires_eq in (low, high, rw same live, ground arith, r)

  -- Resolving a page writes nothing, whatever comes of it.
  pub resolve_page_reads :
      (cursor : Option String) (c : Catalog)
      → (resolve_page uuid digest operation context arguments page_size cursor max_rows now c).1 ≡ c
  unfolding resolve_page resume_page
  resolve_page_reads none c = ground arith
  resolve_page_reads (some cursor) c = ground arith
