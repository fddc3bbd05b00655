-- ===== src/Sql/Whole.antt =====
-- Every loop only moves the position: the text as a whole stays the same.
use trolley.Base.{
  ℕ, zero, suc, Bool, ◌&&◌, ◌≡◌, refl, inl, inr, some, List, [], ◌∷◌, ◌++◌, ◌==◌, arith,
  Option-cases, Bool-cases, is_space,
}
use trolley.Sql.{
  Position, skip_line, is_pair, skip_block, skip_quote, dollar_tag, strip_prefix, push_all,
  find_tag, is_escape_prefix, dollar_token, text_token, token,
}
use trolley.Sql.Progress.{position}

-- The text of a position: what is behind it, then what is in front of it.
abbrev pub whole : Position → List ℕ
whole p = push_all p.0 p.1

skip_line-whole : (done rest : List ℕ) → whole (skip_line done rest) ≡ whole (done, rest)
unfolding skip_line
skip_line-whole done [] = refl
skip_line-whole done (a ∷ rest) = ground (arith, skip_line-whole (a ∷ done) rest)

skip_block-whole :
    (depth : ℕ) (done rest : List ℕ) (p : Position)
    → skip_block depth done rest ≡ some p
    → whole p ≡ whole (done, rest)
unfolding skip_block
skip_block-whole zero done rest p e = ground arith
skip_block-whole (suc depth) done [] p e = cc
skip_block-whole (suc depth) done (a ∷ []) p e = cc
skip_block-whole (suc depth) done (a ∷ b ∷ rest) p e = ground (
  arith,
  skip_block-whole (suc (suc depth)) (b ∷ a ∷ done) rest p,
  skip_block-whole depth (b ∷ a ∷ done) rest p,
  skip_block-whole (suc depth) (a ∷ done) (b ∷ rest) p,
)

skip_quote-whole :
    (escaped : Bool) (quote : ℕ) (done rest : List ℕ) (p : Position)
    → skip_quote escaped quote done rest ≡ some p
    → whole p ≡ whole (done, rest)
unfolding skip_quote
skip_quote-whole escaped quote done [] p e = cc
skip_quote-whole escaped quote done (a ∷ []) p e = ground arith
skip_quote-whole escaped quote done (a ∷ b ∷ rest) p e = ground (
  arith,
  skip_quote-whole escaped quote (b ∷ a ∷ done) rest p,
  skip_quote-whole escaped quote (a ∷ done) (b ∷ rest) p,
)

strip_prefix-eq :
    (tag rest after : List ℕ) → strip_prefix tag rest ≡ some after → rest ≡ tag ++ after
unfolding strip_prefix
strip_prefix-eq [] rest after e = ground arith
strip_prefix-eq (t ∷ tag) [] after e = cc
strip_prefix-eq (t ∷ tag) (a ∷ rest) after e = ground (arith, strip_prefix-eq tag rest after)

push_all-push_all :
    (tag done after : List ℕ) → push_all (push_all tag done) after ≡ push_all done (tag ++ after)
push_all-push_all [] done after = refl
push_all-push_all (t ∷ tag) done after = push_all-push_all tag (t ∷ done) after

find_tag-whole :
    (tag done rest : List ℕ) (p : Position)
    → find_tag tag done rest ≡ some p
    → whole p ≡ whole (done, rest)
unfolding find_tag
find_tag-whole tag done [] p e = cc
find_tag-whole tag done (a ∷ rest) p e = elim (Option-cases (strip_prefix tag (a ∷ rest))) [
  | inl missed ↦ ground (arith, find_tag-whole tag (a ∷ done) rest p)
  | inr (after, found) ↦
      ground (arith, strip_prefix-eq tag (a ∷ rest) after found, push_all-push_all tag done after)
]

module _ (is_alnum : ℕ → Bool) where
  dollar_token-whole :
      (done : List ℕ) (a : ℕ) (rest : List ℕ) (p : Position)
      → position (dollar_token is_alnum done a rest) ≡ some p
      → whole p ≡ whole (done, a ∷ rest)
  unfolding dollar_token
  dollar_token-whole done a rest p e = elim (Option-cases (dollar_tag (a ∷ rest))) [
    | inl plain ↦ ground arith
    | inr (tag, tagged) ↦ elim (Option-cases (strip_prefix tag (a ∷ rest))) [
      | inl missed ↦ ground arith
      | inr (after, found) ↦ ground (
        arith,
        strip_prefix-eq tag (a ∷ rest) after found,
        push_all-push_all tag done after,
        find_tag-whole tag (push_all tag done) after p,
        Option-cases (find_tag tag (push_all tag done) after),
      )
    ]
  ]

  text_token-whole :
      (done : List ℕ) (a : ℕ) (rest : List ℕ) (p : Position)
      → position (text_token is_alnum done a rest) ≡ some p
      → whole p ≡ whole (done, a ∷ rest)
  unfolding text_token
  text_token-whole done a rest p e =
      let escaped = a == b'\'' && is_escape_prefix is_alnum done in
      ground (
        arith,
        dollar_token-whole done a rest p,
        skip_quote-whole escaped a (a ∷ done) rest p,
        Option-cases (skip_quote escaped a (a ∷ done) rest),
      )

  -- A token leaves the text as it is.
  pub token-whole :
      (done : List ℕ) (a : ℕ) (rest : List ℕ) (p : Position)
      → position (token is_alnum done a rest) ≡ some p
      → whole p ≡ whole (done, a ∷ rest)
  unfolding token
  token-whole done a [] p e = ground (arith, text_token-whole done a [] p)
  token-whole done a (b ∷ rest) p e = elim (Bool-cases (is_space a)) [
    | inl s ↦ ground arith
    | inr n ↦ elim (Bool-cases (is_pair b'-' b'-' a b)) [
      | inl l ↦ ground (arith, skip_line-whole (b ∷ a ∷ done) rest)
      | inr m ↦ elim (Bool-cases (is_pair b'/' b'*' a b)) [
        | inl o ↦ ground (
          arith,
          skip_block-whole 1 (b ∷ a ∷ done) rest p,
          Option-cases (skip_block 1 (b ∷ a ∷ done) rest),
        )
        | inr q ↦ text_token-whole done a (b ∷ rest) p (rw (n, m, q, token) at e)
      ]
    ]
  ]
