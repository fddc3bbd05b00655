-- ===== src/Sql/Tokens.antt =====
-- Which token is blank and which one is the semicolon.
use trolley.Base.{
  subst, ℕ, Bool, ◌&&◌, ◌≡◌, ◌≢◌, inl, inr, List, [], ◌∷◌, ◌==◌, arith, Option-cases, Bool-cases,
  is_space,
}
use trolley.Sql.{
  Position, skip_line, is_pair, skip_block, skip_quote, dollar_tag, strip_prefix, push_all,
  find_tag, blank, semicolon, is_escape_prefix, dollar_token, text_token, token,
}
use trolley.Sql.Blank.{IsBlank, end, space, line, block, skip_line-InLine, skip_block-InBlock}

module _ (is_alnum : ℕ → Bool) where
  dollar_token-not_blank :
      (done : List ℕ) (a : ℕ) (rest : List ℕ) (p : Position)
      → dollar_token is_alnum done a rest ≢ blank p
  unfolding dollar_token
  dollar_token-not_blank done a rest p e = elim (Option-cases (dollar_tag (a ∷ rest))) [
    | inl plain ↦ ground arith
    | inr (tag, tagged) ↦ elim (Option-cases (strip_prefix tag (a ∷ rest))) [
      | inl missed ↦ ground arith
      | inr (after, found) ↦ ground (arith, Option-cases (find_tag tag (push_all tag done) after))
    ]
  ]

  text_token-not_blank :
      (done : List ℕ) (a : ℕ) (rest : List ℕ) (p : Position)
      → text_token is_alnum done a rest ≢ blank p
  unfolding text_token
  text_token-not_blank done a rest p e =
      let escaped = a == b'\'' && is_escape_prefix is_alnum done in
      ground (
        arith,
        dollar_token-not_blank done a rest p,
        Option-cases (skip_quote escaped a (a ∷ done) rest),
      )

  -- A blank token is white space or a comment.
  pub token-IsBlank :
      (done : List ℕ) (a : ℕ) (rest : List ℕ) (p : Position)
      → token is_alnum done a rest ≡ blank p
      → IsBlank p.1
      → IsBlank (a ∷ rest)
  unfolding token
  token-IsBlank done a [] p e h = elim (Bool-cases (is_space a)) [
    | inl s ↦ space s end
    | inr n ↦ absurd (text_token-not_blank done a [] p (ground arith))
  ]
  token-IsBlank done a (b ∷ rest) p e h = elim (Bool-cases (is_space a)) [
    | inl s ↦
        let same : p ≡ (a ∷ done, b ∷ rest) = ground arith in
        space s (subst (λ (q : Position). IsBlank q.1) same h)
    | inr n ↦ elim (Bool-cases (is_pair b'-' b'-' a b)) [
      | inl l ↦
          let same : p ≡ skip_line (b ∷ a ∷ done) rest = ground arith in
          line (ground arith) (ground arith)
            (skip_line-InLine (b ∷ a ∷ done) rest (subst (λ (q : Position). IsBlank q.1) same h))
      | inr m ↦ elim (Bool-cases (is_pair b'/' b'*' a b)) [
        | inl o ↦ block (ground arith) (ground arith) (
            skip_block-InBlock 1 (b ∷ a ∷ done) rest p
              (ground (arith, Option-cases (skip_block 1 (b ∷ a ∷ done) rest))) h)
        | inr q ↦ absurd (text_token-not_blank done a (b ∷ rest) p (ground arith))
      ]
    ]
  ]

  dollar_token-not_semicolon :
      (done : List ℕ) (a : ℕ) (rest : List ℕ) (p : Position)
      → dollar_token is_alnum done a rest ≢ semicolon p
  unfolding dollar_token
  dollar_token-not_semicolon done a rest p e = elim (Option-cases (dollar_tag (a ∷ rest))) [
    | inl plain ↦ ground arith
    | inr (tag, tagged) ↦ elim (Option-cases (strip_prefix tag (a ∷ rest))) [
      | inl missed ↦ ground arith
      | inr (after, found) ↦ ground (arith, Option-cases (find_tag tag (push_all tag done) after))
    ]
  ]

  text_token-semicolon :
      (done : List ℕ) (a : ℕ) (rest : List ℕ) (p : Position)
      → text_token is_alnum done a rest ≡ semicolon p
      → (a ≡ b';') × (p ≡ (a ∷ done, rest))
  unfolding text_token
  text_token-semicolon done a rest p e =
      let escaped = a == b'\'' && is_escape_prefix is_alnum done in
      ground (
        arith,
        dollar_token-not_semicolon done a rest p,
        Option-cases (skip_quote escaped a (a ∷ done) rest),
      )

  pub token-semicolon :
      (done : List ℕ) (a : ℕ) (rest : List ℕ) (p : Position)
      → token is_alnum done a rest ≡ semicolon p
      → (a ≡ b';') × (p ≡ (a ∷ done, rest))
  unfolding token
  token-semicolon done a [] p e = ground (arith, text_token-semicolon done a [] p)
  token-semicolon done a (b ∷ rest) p e = elim (Bool-cases (is_space a)) [
    | inl s ↦ ground arith
    | inr n ↦ elim (Bool-cases (is_pair b'-' b'-' a b)) [
      | inl l ↦ ground arith
      | inr m ↦ elim (Bool-cases (is_pair b'/' b'*' a b)) [
        | inl o ↦ ground (arith, Option-cases (skip_block 1 (b ∷ a ∷ done) rest))
        | inr q ↦ text_token-semicolon done a (b ∷ rest) p (rw (n, m, q, token) at e)
      ]
    ]
  ]
