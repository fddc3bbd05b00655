-- ===== src/Sql/Calm.antt =====
-- Texts whose tokens all belong to one statement: single characters, a dollar sign in front of a
-- digit, arrows, and quoted words.
use trolley.Base.{
  ℕ, zero, suc, ◌<◌, Bool, true, false, ◌&&◌, ◌||◌, not, ◌≡◌, refl, ap, inl, inr, none, some, List,
  [], ◌∷◌, ◌++◌, length, all, ◌==◌, leb, is_space, arith, Bool-cases, ok, length-append, ◌∙◌, ◌⊎◌,
}
use trolley.Sql.{
  skip_quote, is_word, dollar_tag, token, text_token, dollar_token, scan, finished, blank, item,
  is_escape_prefix, pagination_query, strip, is_pair,
}

-- No quote, semicolon, dash, slash or dollar sign.
abbrev pub is_calm : ℕ → Bool
is_calm c = not (c == b'\'' || c == b'"' || c == b';' || c == b'-' || c == b'/' || c == b'$')

abbrev pub is_digit : ℕ → Bool
is_digit c = leb b'0' c && leb c b'9'

abbrev pub is_quote : ℕ → Bool
is_quote c = c == b'\'' || c == b'"'

-- The text does not go on with a quote.
abbrev pub IsOpen : List ℕ → Type 0
IsOpen [] = Unit
IsOpen (c ∷ _) = is_quote c ≡ false

pub data IsCalm : List ℕ → Type 0 where
  stop : IsCalm []
  char : (c : ℕ) (rest : List ℕ) → is_calm c ≡ true → IsCalm rest → IsCalm (c ∷ rest)
  arrow : (rest : List ℕ) → IsCalm (b'>' ∷ rest) → IsCalm (b'-' ∷ b'>' ∷ rest)
  dollar :
      (d : ℕ) (rest : List ℕ) → is_digit d ≡ true → IsCalm (d ∷ rest) → IsCalm (b'$' ∷ d ∷ rest)
  quote :
      (q : ℕ) (word rest text : List ℕ)
      → is_quote q ≡ true
      → all is_word word ≡ true
      → IsOpen rest
      → IsCalm rest
      → text ≡ word ++ q ∷ rest
      → IsCalm (q ∷ text)

-- A quoted word ends at its closing quote.
skip_quote-word :
    (escaped : Bool) (q : ℕ) (done word rest : List ℕ)
    → is_quote q ≡ true
    → all is_word word ≡ true
    → IsOpen rest
    → (d : List ℕ) × (skip_quote escaped q done (word ++ q ∷ rest) ≡ some (d, rest))
unfolding skip_quote
skip_quote-word escaped q done [] [] i w o = (q ∷ done, ground arith)
skip_quote-word escaped q done [] (r ∷ rest) i w o = (q ∷ done, ground arith)
skip_quote-word escaped q done (a ∷ []) rest i w o =
    let (d, e) = skip_quote-word escaped q (a ∷ done) [] rest i refl o in (d, ground (arith, e))
skip_quote-word escaped q done (a ∷ b ∷ word) rest i w o =
    let (d, e) = skip_quote-word escaped q (a ∷ done) (b ∷ word) rest i (ground arith) o in
    (d, ground (arith, e))

module _ (is_alnum : ℕ → Bool) where
  dollar_token-item :
      (done : List ℕ) (a : ℕ) (rest : List ℕ)
      → dollar_tag (a ∷ rest) ≡ none
      → dollar_token is_alnum done a rest ≡ item (a ∷ done, rest)
  unfolding dollar_token
  dollar_token-item done a rest e = rw (e, dollar_token)

  dollar_tag-none : (a : ℕ) (rest : List ℕ) → (a == b'$') ≡ false → dollar_tag (a ∷ rest) ≡ none
  unfolding dollar_tag
  dollar_tag-none a [] n = refl
  dollar_tag-none a (b ∷ rest) n = rw n refl

  dollar_tag-digit :
      (d : ℕ) (rest : List ℕ) → is_digit d ≡ true → dollar_tag (b'$' ∷ d ∷ rest) ≡ none
  unfolding dollar_tag
  dollar_tag-digit d rest i = ground arith

  -- One token ends in front of `rest`, and is no semicolon.
  abbrev Passes : List ℕ → ℕ → List ℕ → List ℕ → Type 0
  Passes done a text rest =
      (d : List ℕ) × ((token is_alnum done a text ≡ blank (d, rest))
        ⊎ (token is_alnum done a text ≡ item (d, rest)))

  text_token-plain :
      (done : List ℕ) (a : ℕ) (rest : List ℕ)
      → (a == b';') ≡ false
      → is_quote a ≡ false
      → dollar_tag (a ∷ rest) ≡ none
      → text_token is_alnum done a rest ≡ item (a ∷ done, rest)
  unfolding text_token
  text_token-plain done a rest s q e = rw (s, q) (dollar_token-item done a rest e)

  char-Passes : (done : List ℕ) (a : ℕ) (rest : List ℕ) → is_calm a ≡ true → Passes done a rest rest
  unfolding token
  char-Passes done a [] c = elim (Bool-cases (is_space a)) [
    | inl s ↦ (a ∷ done, inl (rw s refl))
    | inr n ↦ (
      a ∷ done,
      inr (
          rw n (
            text_token-plain done a [] (ground arith) (ground arith)
              (dollar_tag-none a [] (ground arith)))),
    )
  ]
  char-Passes done a (b ∷ rest) c = elim (Bool-cases (is_space a)) [
    | inl s ↦ (a ∷ done, inl (rw s refl))
    | inr n ↦
        let dash : is_pair b'-' b'-' a b ≡ false = ground arith in
        let slash : is_pair b'/' b'*' a b ≡ false = ground arith in
        (
          a ∷ done,
          inr (
              rw (n, dash, slash)
                (text_token-plain done a (b ∷ rest) (ground arith) (ground arith)
                  (dollar_tag-none a (b ∷ rest) (ground arith)))),
        )
  ]

  arrow-Passes : (done rest : List ℕ) → Passes done b'-' (b'>' ∷ rest) (b'>' ∷ rest)
  unfolding token is_space
  arrow-Passes done rest = (
    b'-' ∷ done,
    inr (
        text_token-plain done b'-' (b'>' ∷ rest) refl refl
          (dollar_tag-none b'-' (b'>' ∷ rest) refl)),
  )

  dollar-Passes :
      (done : List ℕ) (d : ℕ) (rest : List ℕ)
      → is_digit d ≡ true
      → Passes done b'$' (d ∷ rest) (d ∷ rest)
  unfolding token is_space
  dollar-Passes done d rest i = (
    b'$' ∷ done,
    inr (text_token-plain done b'$' (d ∷ rest) refl refl (dollar_tag-digit d rest i)),
  )

  quote-text_token :
      (done : List ℕ) (q : ℕ) (word rest : List ℕ)
      → is_quote q ≡ true
      → all is_word word ≡ true
      → IsOpen rest
      → (d : List ℕ) × (text_token is_alnum done q (word ++ q ∷ rest) ≡ item (d, rest))
  unfolding text_token
  quote-text_token done q word rest i w o =
      let escaped = q == b'\'' && is_escape_prefix is_alnum done in
      let semicolon_no : (q == b';') ≡ false = ground arith in
      let (d, e) = skip_quote-word escaped q (q ∷ done) word rest i w o in
      (d, rw (semicolon_no, i, e) refl)

  quote-Passes :
      (done : List ℕ) (q : ℕ) (word rest text : List ℕ)
      → is_quote q ≡ true
      → all is_word word ≡ true
      → IsOpen rest
      → text ≡ word ++ q ∷ rest
      → Passes done q text rest
  unfolding token is_space
  quote-Passes done q word rest [] i w o e =
      let (d, f) = quote-text_token done q word rest i w o in (d, inr (ground (arith, f, e)))
  quote-Passes done q word rest (b ∷ text) i w o e =
      let (d, f) = quote-text_token done q word rest i w o in
      let same : text_token is_alnum done q (b ∷ text) ≡ item (d, rest) =
        ap (λ t. text_token is_alnum done q t) e ∙ f in
      (d, inr (ground (arith, same)))

  -- The loop over such a text finds no terminator and raises nothing.
  step :
      (fuel : ℕ) (done : List ℕ) (a : ℕ) (text rest : List ℕ)
      → Passes done a text rest
      → ((d : List ℕ) → scan is_alnum fuel d rest none ≡ finished none)
      → scan is_alnum (suc fuel) done (a ∷ text) none ≡ finished none
  unfolding scan
  step fuel done a text rest (d, inl e) ih = rw (e, scan) (ih d)
  step fuel done a text rest (d, inr e) ih = rw (e, scan) (ih d)

  scan-IsCalm :
      (fuel : ℕ) (done text : List ℕ)
      → IsCalm text
      → length text < fuel
      → scan is_alnum fuel done text none ≡ finished none
  unfolding scan
  scan-IsCalm zero done text h f = absurd (omega arith)
  scan-IsCalm (suc fuel) done [] stop f = refl
  scan-IsCalm (suc fuel) done _ (char c rest calm h) f =
      step fuel done c rest rest (char-Passes done c rest calm)
        (λ d. scan-IsCalm fuel d rest h (omega arith))
  scan-IsCalm (suc fuel) done _ (arrow rest h) f =
      step fuel done b'-' (b'>' ∷ rest) (b'>' ∷ rest) (arrow-Passes done rest)
        (λ d. scan-IsCalm fuel d (b'>' ∷ rest) h (omega arith))
  scan-IsCalm (suc fuel) done _ (dollar x rest i h) f =
      step fuel done b'$' (x ∷ rest) (x ∷ rest) (dollar-Passes done x rest i)
        (λ d. scan-IsCalm fuel d (x ∷ rest) h (omega arith))
  scan-IsCalm (suc fuel) done _ (quote q word rest text i w o h e) f =
      step fuel done q text rest (quote-Passes done q word rest text i w o e)
        (λ d. scan-IsCalm fuel d rest h (omega (arith, ap length e, length-append word (q ∷ rest))))

  -- Such a text is one statement as it stands: `pagination_query` accepts it, and only strips it.
  pub pagination_query-IsCalm :
      (sql : List ℕ) → IsCalm sql → pagination_query is_alnum sql ≡ some (ok (strip sql))
  unfolding pagination_query
  pagination_query-IsCalm sql h = rw (scan-IsCalm (suc (length sql)) [] sql h (omega arith)) refl
