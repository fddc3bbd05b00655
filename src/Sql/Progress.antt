-- ===== src/Sql/Progress.antt =====
-- The loops end: every token moves the position on, so the fuel of `pagination_query` is enough.
use trolley.Base.{
  ap, ℕ, zero, suc, ◌+◌, ◌≤◌, ◌<◌, Bool, ◌≡◌, refl, ◌&&◌, ◌≢◌, Option, none, some, List, [], ◌∷◌,
  length, ◌==◌, arith, Result, Option-cases, inl, inr,
}
use trolley.Sql.{
  is_escape_prefix, Position, skip_line, skip_block, skip_quote, dollar_tag, tag_rest, strip_prefix,
  push_all, find_tag, Token, blank, semicolon, item, dollar_token, text_token, token, Scan,
  finished, failed, exhausted, scan, finish, pagination_query,
}

skip_line-length : (done rest : List ℕ) → length (skip_line done rest).1 ≤ length rest
unfolding skip_line
skip_line-length done [] = omega arith
skip_line-length done (c ∷ rest) = ground (arith, skip_line-length (c ∷ done) rest)

skip_block-length :
    (depth : ℕ) (done rest : List ℕ) (p : Position)
    → skip_block depth done rest ≡ some p
    → length p.1 ≤ length rest
unfolding skip_block
skip_block-length zero done rest p e = ground arith
skip_block-length (suc depth) done [] p e = cc
skip_block-length (suc depth) done (a ∷ []) p e = cc
skip_block-length (suc depth) done (a ∷ b ∷ rest) p e = ground (
  arith,
  skip_block-length (suc (suc depth)) (b ∷ a ∷ done) rest p,
  skip_block-length depth (b ∷ a ∷ done) rest p,
  skip_block-length (suc depth) (a ∷ done) (b ∷ rest) p,
)

skip_quote-length :
    (escaped : Bool) (quote : ℕ) (done rest : List ℕ) (p : Position)
    → skip_quote escaped quote done rest ≡ some p
    → length p.1 ≤ length rest
unfolding skip_quote
skip_quote-length escaped quote done [] p e = cc
skip_quote-length escaped quote done (a ∷ []) p e = ground arith
skip_quote-length escaped quote done (a ∷ b ∷ rest) p e = ground (
  arith,
  skip_quote-length escaped quote (b ∷ a ∷ done) rest p,
  skip_quote-length escaped quote (a ∷ done) (b ∷ rest) p,
)

strip_prefix-length :
    (tag rest after : List ℕ)
    → strip_prefix tag rest ≡ some after
    → length rest ≡ length tag + length after
unfolding strip_prefix
strip_prefix-length [] rest after e = ground arith
strip_prefix-length (t ∷ tag) [] after e = cc
strip_prefix-length (t ∷ tag) (a ∷ rest) after e =
    ground (arith, strip_prefix-length tag rest after)

find_tag-length :
    (tag done rest : List ℕ) (p : Position)
    → find_tag tag done rest ≡ some p
    → length p.1 ≤ length rest
unfolding find_tag
find_tag-length tag done [] p e = cc
find_tag-length tag done (a ∷ rest) p e = elim (Option-cases (strip_prefix tag (a ∷ rest))) [
  | inl missed ↦ ground (arith, find_tag-length tag (a ∷ done) rest p)
  | inr (after, found) ↦ ground (arith, strip_prefix-length tag (a ∷ rest) after found)
]

dollar_tag-length : (rest tag : List ℕ) → dollar_tag rest ≡ some tag → 2 ≤ length tag
unfolding dollar_tag
dollar_tag-length [] tag e = cc
dollar_tag-length (a ∷ []) tag e = cc
dollar_tag-length (a ∷ b ∷ rest) tag e = ground (arith, Option-cases (tag_rest rest))

-- Where a token leads, if it leads on.
abbrev pub position : Token → Option Position
position (blank p) = some p
position (semicolon p) = some p
position (item p) = some p
position _ = none

module _ (is_alnum : ℕ → Bool) where
  dollar_token-length :
      (done : List ℕ) (a : ℕ) (rest : List ℕ) (p : Position)
      → position (dollar_token is_alnum done a rest) ≡ some p
      → length p.1 ≤ length rest
  unfolding dollar_token
  dollar_token-length done a rest p e = elim (Option-cases (dollar_tag (a ∷ rest))) [
    | inl plain ↦ ground arith
    | inr (tag, tagged) ↦ elim (Option-cases (strip_prefix tag (a ∷ rest))) [
      | inl missed ↦ ground arith
      | inr (after, found) ↦ ground (
        arith,
        dollar_tag-length (a ∷ rest) tag tagged,
        strip_prefix-length tag (a ∷ rest) after found,
        find_tag-length tag (push_all tag done) after p,
        Option-cases (find_tag tag (push_all tag done) after),
      )
    ]
  ]

  text_token-length :
      (done : List ℕ) (a : ℕ) (rest : List ℕ) (p : Position)
      → position (text_token is_alnum done a rest) ≡ some p
      → length p.1 ≤ length rest
  unfolding text_token
  text_token-length done a rest p e =
      let escaped = a == b'\'' && is_escape_prefix is_alnum done in
      ground (
        arith,
        dollar_token-length done a rest p,
        skip_quote-length escaped a (a ∷ done) rest p,
        Option-cases (skip_quote escaped a (a ∷ done) rest),
      )

  -- A token takes at least its first code point.
  token-length :
      (done : List ℕ) (a : ℕ) (rest : List ℕ) (p : Position)
      → position (token is_alnum done a rest) ≡ some p
      → length p.1 ≤ length rest
  unfolding token
  token-length done a [] p e = ground (arith, text_token-length done a [] p)
  token-length done a (b ∷ rest) p e = ground (
    arith,
    text_token-length done a (b ∷ rest) p,
    skip_line-length (b ∷ a ∷ done) rest,
    skip_block-length 1 (b ∷ a ∷ done) rest p,
    Option-cases (skip_block 1 (b ∷ a ∷ done) rest),
  )

  -- One round of the loop, whatever the token is.
  round-ne-exhausted :
      (fuel : ℕ) (done : List ℕ) (a : ℕ) (rest : List ℕ) (terminator : Option ℕ) (t : Token)
      → token is_alnum done a rest ≡ t
      → ((d r : List ℕ) (u : Option ℕ)
          → length r ≤ length rest
          → scan is_alnum fuel d r u ≢ exhausted)
      → scan is_alnum (suc fuel) done (a ∷ rest) terminator ≢ exhausted
  unfolding scan
  round-ne-exhausted fuel done a rest terminator (blank p) e ih =
      rw (e, scan) (ih p.0 p.1 terminator (token-length done a rest p (ap position e)))
  round-ne-exhausted fuel done a rest none (semicolon p) e ih =
      rw (e, scan) (ih p.0 p.1 (some (length done)) (token-length done a rest p (ap position e)))
  round-ne-exhausted fuel done a rest none (item p) e ih =
      rw (e, scan) (ih p.0 p.1 none (token-length done a rest p (ap position e)))
  round-ne-exhausted fuel done a rest none _ e ih = rw (e, scan) (λ h. cc)
  round-ne-exhausted fuel done a rest (some t) _ e ih = rw (e, scan) (λ h. cc)

  scan-ne-exhausted :
      (fuel : ℕ) (done rest : List ℕ) (terminator : Option ℕ)
      → length rest < fuel
      → scan is_alnum fuel done rest terminator ≢ exhausted
  unfolding scan
  scan-ne-exhausted zero done rest terminator h = elim h [ ]
  scan-ne-exhausted (suc fuel) done [] terminator h = λ e. cc
  scan-ne-exhausted (suc fuel) done (a ∷ rest) terminator h =
      round-ne-exhausted fuel done a rest terminator _ refl
        (λ d r u le. scan-ne-exhausted fuel d r u (omega arith))

  -- The preparation of a query always ends: it gives the query or raises, for every text.
  pub pagination_query_total :
      (sql : List ℕ) → (r : Result (List ℕ)) × (pagination_query is_alnum sql ≡ some r)
  unfolding pagination_query
  pagination_query_total sql =
      outcome (scan is_alnum (suc (length sql)) [] sql none)
        (scan-ne-exhausted (suc (length sql)) [] sql none (omega arith))
    where
      outcome : (s : Scan) → s ≢ exhausted → (r : Result (List ℕ)) × (finish sql s ≡ some r)
      outcome (finished terminator) h = (_, refl)
      outcome (failed e) h = (_, refl)
      outcome exhausted h = absurd (h refl)
