-- ===== src/Pagination/Cursors.antt =====
-- Saving a page and coming back with its cursor.
use trolley.Base.{
  ℕ, ◌+◌, ◌≤◌, ◌<◌, String, Bool, true, false, not, Option, some, List, [], ◌∷◌, ◌++◌, ◌≡◌, refl,
  ◌↔◌, ◌⊎◌, inl, inr, In, find, filter, filter-In, arith, eq_refl, ◌==◌, leb, Bool-cases, Dict,
  Json, ℤ, ok, In-append,
}
use trolley.Catalog.{Catalog, Operation, PageCursor}
use trolley.Access.{AuthContext}
use trolley.Pagination.{
  UuidText, Digest, query_fingerprint, is_other_size, is_cursor, resolve_page, next_page,
}
use trolley.Pagination.Bounds.{resume_page_saved}

-- Every saved row has an id that was handed out before.
abbrev pub AreIssued : List PageCursor → ℕ → Type 0
AreIssued [] next = Unit
AreIssued (p ∷ ps) next = (p.id < next) × AreIssued ps next

AreIssued-filter :
    (keep : PageCursor → Bool) (ps : List PageCursor) (next : ℕ)
    → AreIssued ps next
    → AreIssued (filter keep ps) next
AreIssued-filter keep [] next h = tt
AreIssued-filter keep (p ∷ ps) next (h, hs) = elim (Bool-cases (keep p)) [
  | inl kept ↦ rw kept (h, AreIssued-filter keep ps next hs)
  | inr dropped ↦ rw dropped (AreIssued-filter keep ps next hs)
]

AreIssued-append :
    (ps : List PageCursor) (p : PageCursor)
    → AreIssued ps p.id
    → AreIssued (ps ++ p ∷ []) (p.id + 1)
AreIssued-append [] p h = omega arith
AreIssued-append (q ∷ ps) p (h, hs) = (omega arith, AreIssued-append ps p hs)

-- A row with a new id is the one that its id finds.
find_new_cursor :
    (operation user_id now : ℕ) (fingerprint : String) (ps : List PageCursor) (p : PageCursor)
    → AreIssued ps p.id
    → is_cursor p.id operation user_id fingerprint now p ≡ true
    → find (is_cursor p.id operation user_id fingerprint now) (ps ++ p ∷ []) ≡ some p
find_new_cursor operation user_id now fingerprint [] p h good = rw good
find_new_cursor operation user_id now fingerprint (q ∷ ps) p (h, hs) good =
    let other : (q.id == p.id) ≡ false = ground arith in
    rw other (find_new_cursor operation user_id now fingerprint ps p hs good)

module _ (uuid : UuidText) (operation : Operation) (context : AuthContext) where
  abbrev pub new_cursor : ℕ → ℕ → ℕ → String → ℕ → PageCursor
  new_cursor id offset page_size fingerprint expires_at = record {
    id = id;
    operation = operation.id;
    user_id = context.user_id;
    fingerprint = fingerprint;
    offset = offset;
    page_size = page_size;
    expires_at = expires_at;
  }

  -- Saving a page adds one row for this caller and operation and drops the expired rows, and no
  -- other: whatever page has not expired can still be continued.
  next_page-cursors :
      (offset page_size expires_at now : ℕ) (fingerprint : String) (c : Catalog) (p : PageCursor)
      → In p
          (next_page uuid operation context offset page_size fingerprint expires_at now c).1.cursors
        ↔ ((In p c.cursors × (now < p.expires_at))
            ⊎ (p ≡ new_cursor c.next_id offset page_size fingerprint expires_at))
  unfolding next_page
  next_page-cursors offset page_size expires_at now fingerprint c p =
      let (to, from) = filter-In (λ (q : PageCursor). not (leb q.expires_at now)) c.cursors p in
      let (split, join) =
        In-append p (filter (λ (q : PageCursor). not (leb q.expires_at now)) c.cursors)
          (new_cursor c.next_id offset page_size fingerprint expires_at ∷ []) in
      ground (arith, to, from, split, join)

  -- Rows with issued ids stay so, with the new row's id issued too.
  pub next_page-AreIssued :
      (offset page_size expires_at now : ℕ) (fingerprint : String) (c : Catalog)
      → AreIssued c.cursors c.next_id
      → let c' =
          (next_page uuid operation context offset page_size fingerprint expires_at now c).1 in
        AreIssued c'.cursors c'.next_id
  unfolding next_page
  next_page-AreIssued offset page_size expires_at now fingerprint c h =
      AreIssued-append _ (new_cursor c.next_id offset page_size fingerprint expires_at)
        (AreIssued-filter _ c.cursors c.next_id h)

  -- A cursor that was just saved resumes exactly its page for the same caller, operation and
  -- arguments, until it expires: the offset, the size and the first page's expiry come back.
  pub resolve_page-next_page :
      (digest : Digest) (arguments : Dict Json) (offset size expires_at saved_at now max_rows : ℕ)
      (page_size : Option ℤ) (c : Catalog)
      → AreIssued c.cursors c.next_id
      → 1 ≤ size
      → size ≤ max_rows
      → now < expires_at
      → is_other_size page_size size ≡ false
      → let fingerprint = query_fingerprint digest operation arguments in
        let (text, c') =
          next_page uuid operation context offset size fingerprint expires_at saved_at c in
        (text ≡ ok (uuid.print c.next_id))
        × (resolve_page uuid digest operation context arguments page_size
              (some (uuid.print c.next_id))
              max_rows
              now
              c'
            ≡ (
              ok (record {
                offset = offset;
                page_size = size;
                fingerprint = fingerprint;
                expires_at = expires_at;
              }),
              c',
            ))
  unfolding next_page resolve_page
  resolve_page-next_page digest arguments offset size expires_at saved_at now max_rows page_size c
        issued low high live same =
      let fingerprint = query_fingerprint digest operation arguments in
      let p = new_cursor c.next_id offset size fingerprint expires_at in
      let found =
        find_new_cursor operation.id context.user_id now fingerprint
          (filter (λ (q : PageCursor). not (leb q.expires_at saved_at)) c.cursors) p
          (AreIssued-filter _ c.cursors c.next_id issued) (ground (arith, eq_refl fingerprint)) in
      (
        refl,
        resume_page_saved uuid digest operation context arguments page_size max_rows now
            (uuid.print c.next_id) c.next_id
            (next_page uuid operation context offset size fingerprint expires_at saved_at c).1 p
            (uuid.parse-print c.next_id) found same low high,
      )
