-- ===== src/Sql.antt =====
-- connectors/sql.py: `pagination_query` over the code points of the text. The index `i` is the pair
-- of what is behind it, reversed, and what is in front of it. `str.isalnum`, a table of Unicode, is
-- a parameter.
pub mod Progress
pub mod Blank
pub mod Whole
pub mod Tokens
pub mod Shape
pub mod Calm
mod Tests
use trolley.Base.{
  ℕ, zero, suc, ◌+◌, Bool, true, false, not, ◌&&◌, ◌||◌, Option, none, some, List, [], ◌∷◌, ◌++◌,
  length, take, drop, ◌==◌, leb, is_space, if◌then◌else◌, Error, value_error, Result, ok, err,
}
use mathlib.Core.Option

abbrev pub Position : Type 0
Position = List ℕ × List ℕ

-- `str.strip` over code points.
pub lstrip : List ℕ → List ℕ
lstrip [] = []
lstrip (c ∷ s) = let rest = lstrip s in if is_space c then rest else c ∷ s

abbrev trim_end : ℕ → List ℕ → List ℕ
trim_end c [] = if is_space c then [] else c ∷ []
trim_end c (d ∷ s) = c ∷ d ∷ s

pub rstrip : List ℕ → List ℕ
rstrip [] = []
rstrip (c ∷ s) = trim_end c (rstrip s)

unfoldable pub strip : List ℕ → List ℕ
unfolding lstrip rstrip is_space
strip s = rstrip (lstrip s)

-- A line comment runs past the next newline, or to the end.
pub skip_line : List ℕ → List ℕ → Position
skip_line done [] = (done, [])
skip_line done (c ∷ rest) = if c == b'\n' then (c ∷ done, rest) else skip_line (c ∷ done) rest

abbrev pub is_pair : ℕ → ℕ → ℕ → ℕ → Bool
is_pair x y a b = a == x && b == y

-- The loop over a block comment; `none` where the text ends inside it.
pub skip_block : ℕ → List ℕ → List ℕ → Option Position
skip_block zero done rest = some (done, rest)
skip_block (suc depth) done [] = none
skip_block (suc depth) done (a ∷ []) = none
skip_block (suc depth) done (a ∷ b ∷ rest) = elim (is_pair b'/' b'*' a b) [
  | true ↦ skip_block (suc (suc depth)) (b ∷ a ∷ done) rest
  | false ↦ elim (is_pair b'*' b'/' a b) [
    | true ↦ skip_block depth (b ∷ a ∷ done) rest
    | false ↦ skip_block (suc depth) (a ∷ done) (b ∷ rest)
  ]
]

-- The loop over a quoted text, from behind its opening quote.
pub skip_quote : Bool → ℕ → List ℕ → List ℕ → Option Position
skip_quote escaped quote done [] = none
skip_quote escaped quote done (a ∷ []) =
    if escaped && a == b'\\' then none else if a == quote then some (a ∷ done, []) else none
skip_quote escaped quote done (a ∷ b ∷ rest) = elim (escaped && a == b'\\') [
  | true ↦ skip_quote escaped quote (b ∷ a ∷ done) rest
  | false ↦ elim (a == quote) [
    | false ↦ skip_quote escaped quote (a ∷ done) (b ∷ rest)
    | true ↦ elim (b == quote) [
      | true ↦ skip_quote escaped quote (b ∷ a ∷ done) rest
      | false ↦ some (a ∷ done, b ∷ rest)
    ]
  ]
]

-- `[A-Za-z_]` and `[A-Za-z0-9_]`
abbrev pub is_word_start : ℕ → Bool
is_word_start c = (leb b'A' c && leb c b'Z') || (leb b'a' c && leb c b'z') || c == b'_'

abbrev pub is_word : ℕ → Bool
is_word c = is_word_start c || (leb b'0' c && leb c b'9')

-- The rest of a dollar tag, up to its closing dollar sign.
pub tag_rest : List ℕ → Option (List ℕ)
tag_rest [] = none
tag_rest (a ∷ rest) =
    let more = Option.map (λ t. a ∷ t) (tag_rest rest) in
    if a == b'$' then some (a ∷ []) else if is_word a then more else none

-- The match of `_DOLLAR_QUOTE` at the front.
pub dollar_tag : List ℕ → Option (List ℕ)
unfolding tag_rest
dollar_tag [] = none
dollar_tag (a ∷ []) = none
dollar_tag (a ∷ b ∷ rest) =
    if a == b'$'
    then if b == b'$'
      then some (a ∷ b ∷ [])
      else if is_word_start b
      then Option.map (λ t. a ∷ b ∷ t) (tag_rest rest)
      else none
    else none

-- `rest.startswith(tag)`, with what follows the tag.
pub strip_prefix : List ℕ → List ℕ → Option (List ℕ)
strip_prefix [] rest = some rest
strip_prefix (t ∷ tag) [] = none
strip_prefix (t ∷ tag) (a ∷ rest) =
    let more = strip_prefix tag rest in if t == a then more else none

abbrev pub push_all : List ℕ → List ℕ → List ℕ
push_all [] done = done
push_all (t ∷ tag) done = push_all tag (t ∷ done)

-- The position behind the next `tag`.
pub find_tag : List ℕ → List ℕ → List ℕ → Option Position
unfolding strip_prefix
find_tag tag done [] = none
find_tag tag done (a ∷ rest) = elim (strip_prefix tag (a ∷ rest)) [
  | some after ↦ some (push_all tag done, after)
  | none ↦ find_tag tag (a ∷ done) rest
]

-- What stands at a position: white space or a comment, a semicolon, or a piece of the statement.
pub data Token : Type 0 where
  blank semicolon item : Position → Token
  unclosed_comment unclosed_quote unclosed_dollar : Token

abbrev pub or_unclosed : (Position → Token) → Token → Option Position → Token
or_unclosed make unclosed none = unclosed
or_unclosed make unclosed (some p) = make p

-- How the loop ends: with the index of the terminator, or by raising. `exhausted` means that the
-- fuel ran out.
pub data Scan : Type 0 where
  finished : Option ℕ → Scan
  failed : Error → Scan
  exhausted : Scan

abbrev pub unclosed_comment_error : Error
unclosed_comment_error = value_error "Unterminated SQL comment"

abbrev pub unclosed_quote_error : Error
unclosed_quote_error = value_error "Unterminated SQL quote"

abbrev pub unclosed_dollar_error : Error
unclosed_dollar_error = value_error "Unterminated SQL dollar quote"

abbrev pub second_statement_error : Error
second_statement_error = value_error "Pagination requires one SQL statement"

-- `sql[:terminator] + " " + sql[terminator + 1:]`
abbrev pub blank_out : List ℕ → Option ℕ → List ℕ
blank_out sql none = sql
blank_out sql (some t) = take t sql ++ b' ' ∷ drop (t + 1) sql

abbrev pub finish : List ℕ → Scan → Option (Result (List ℕ))
finish sql (finished terminator) = some (ok (strip (blank_out sql terminator)))
finish sql (failed e) = some (err e)
finish sql exhausted = none

module _ (is_alnum : ℕ → Bool) where
  -- `escaped`, but for the kind of the quote: an `e` in front of it that ends no longer word.
  abbrev pub is_escape_prefix : List ℕ → Bool
  is_escape_prefix [] = false
  is_escape_prefix (e ∷ []) = e == b'e' || e == b'E'
  is_escape_prefix (e ∷ p ∷ _) = (e == b'e' || e == b'E') && not (is_alnum p || p == b'_')

  pub dollar_token : List ℕ → ℕ → List ℕ → Token
  unfolding dollar_tag strip_prefix find_tag
  dollar_token done a rest = elim (dollar_tag (a ∷ rest)) [
    | none ↦ item (a ∷ done, rest)
    | some tag ↦ elim (strip_prefix tag (a ∷ rest)) [
      | none ↦ item (a ∷ done, rest)
      | some after ↦ or_unclosed item unclosed_dollar (find_tag tag (push_all tag done) after)
    ]
  ]

  -- The branches below the test of the terminator.
  pub text_token : List ℕ → ℕ → List ℕ → Token
  unfolding skip_quote dollar_token
  text_token done a rest =
      if a == b';'
      then semicolon (a ∷ done, rest)
      else if a == b'\'' || a == b'"'
      then or_unclosed item unclosed_quote
          (skip_quote (a == b'\'' && is_escape_prefix done) a (a ∷ done) rest)
      else dollar_token done a rest

  -- The branches above it are tried first.
  pub token : List ℕ → ℕ → List ℕ → Token
  unfolding is_space skip_line skip_block text_token
  token done a [] = if is_space a then blank (a ∷ done, []) else text_token done a []
  token done a (b ∷ rest) =
      if is_space a
      then blank (a ∷ done, b ∷ rest)
      else if is_pair b'-' b'-' a b
      then blank (skip_line (b ∷ a ∷ done) rest)
      else if is_pair b'/' b'*' a b
      then or_unclosed blank unclosed_comment (skip_block 1 (b ∷ a ∷ done) rest)
      else text_token done a (b ∷ rest)

  -- The main loop. After the terminator only blanks may follow.
  pub scan : ℕ → List ℕ → List ℕ → Option ℕ → Scan
  scan zero done rest terminator = exhausted
  scan (suc fuel) done [] terminator = finished terminator
  scan (suc fuel) done (a ∷ rest) terminator = elim (token done a rest) [
    | blank p ↦ scan fuel p.0 p.1 terminator
    | unclosed_comment ↦ failed unclosed_comment_error
    | semicolon p ↦ elim terminator [
      | some _ ↦ failed second_statement_error
      | none ↦ scan fuel p.0 p.1 (some (length done))
    ]
    | item p ↦ elim terminator [
      | some _ ↦ failed second_statement_error
      | none ↦ scan fuel p.0 p.1 none
    ]
    | unclosed_quote ↦ elim terminator [
      | some _ ↦ failed second_statement_error
      | none ↦ failed unclosed_quote_error
    ]
    | unclosed_dollar ↦ elim terminator [
      | some _ ↦ failed second_statement_error
      | none ↦ failed unclosed_dollar_error
    ]
  ]

  -- The fuel is one more than the length of the text; `none` would mean that it was not enough.
  pub pagination_query : List ℕ → Option (Result (List ℕ))
  unfolding scan token strip
  pagination_query sql = finish sql (scan (suc (length sql)) [] sql none)
