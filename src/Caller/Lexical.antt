-- ===== src/Caller/Lexical.antt =====
-- The text of a safe query, piece by piece, for the lexer of the pages.
use trolley.Base.{
  ℕ, String, Bool, true, false, ◌&&◌, ◌||◌, ◌≡◌, refl, sym, subst, inl, inr, List, [], ◌∷◌, ◌++◌,
  all, codes, codes-append, decimal, decimal-is_numeral, is_numeral, are_digits, cat, not, or_split,
  and_split, str_append, arith, ◌==◌,
}
use mathlib.Core.List.{append_assoc, append-nil}
use trolley.Sql.{is_word}
use trolley.Sql.Calm.{IsCalm, char, arrow, dollar, quote, IsOpen, is_calm, is_digit, is_quote}
use trolley.Caller.{quoted, literal, is_simple, is_identifier_codes, placeholder}

-- A text without quotes: calm characters, arrows, and dollar signs in front of digits.
abbrev pub is_plain : List ℕ → Bool
is_plain [] = true
is_plain (c ∷ []) = is_calm c
is_plain (c ∷ d ∷ cs) =
    (is_calm c || ((c == b'-' && d == b'>') || (c == b'$' && is_digit d))) && is_plain (d ∷ cs)

plain_step :
    (c d : ℕ) (rest : List ℕ)
    → (is_calm c || ((c == b'-' && d == b'>') || (c == b'$' && is_digit d))) ≡ true
    → IsCalm (d ∷ rest)
    → IsCalm (c ∷ d ∷ rest)
plain_step c d rest h k =
    elim ((or_split (is_calm c) ((c == b'-' && d == b'>') || (c == b'$' && is_digit d))).0 h) [
      | inl calm ↦ char c (d ∷ rest) calm k
      | inr h' ↦ elim ((or_split (c == b'-' && d == b'>') (c == b'$' && is_digit d)).0 h') [
        | inl a ↦
            let dash : b'-' ≡ c = ground arith in
            let tip : b'>' ≡ d = ground arith in
            subst (λ x. IsCalm (x ∷ d ∷ rest)) dash
              (subst (λ x. IsCalm (b'-' ∷ x ∷ rest)) tip
                (arrow rest (subst (λ x. IsCalm (x ∷ rest)) (sym tip) k)))
        | inr e ↦
            let sign : b'$' ≡ c = ground arith in
            subst (λ x. IsCalm (x ∷ d ∷ rest)) sign (dollar d rest (ground arith) k)
      ]
    ]

is_plain-IsCalm : (cs rest : List ℕ) → is_plain cs ≡ true → IsCalm rest → IsCalm (cs ++ rest)
is_plain-IsCalm [] rest p h = h
is_plain-IsCalm (c ∷ []) rest p h = char c rest p h
is_plain-IsCalm (c ∷ d ∷ cs) rest p h =
    let (first, more) = (and_split _ _).0 p in
    plain_step c d (cs ++ rest) first (is_plain-IsCalm (d ∷ cs) rest more h)

-- A text that may stand in front of calm text which does not begin with a quote.
abbrev pub Calms : String → Type 0
Calms s = (rest : List ℕ) → IsCalm rest → IsOpen rest → IsCalm (codes s ++ rest)

-- A text that does not begin with a quote, whatever follows.
abbrev pub Opens : String → Type 0
Opens s = (rest : List ℕ) → IsOpen rest → IsOpen (codes s ++ rest)

abbrev pub is_opening : List ℕ → Bool
is_opening [] = false
is_opening (c ∷ cs) = not (is_quote c)

opening : (cs rest : List ℕ) → is_opening cs ≡ true → IsOpen (cs ++ rest)
opening [] rest h = cc
opening (c ∷ cs) rest h = ground arith

pub Opens-append : (s t : String) → is_opening (codes s) ≡ true → Opens (str_append s t)
Opens-append s t h rest r = rw (codes-append, append_assoc) (opening (codes s) (codes t ++ rest) h)

pub Opens-nil : Opens ""
Opens-nil rest o = o

-- In front of plain text anything calm may follow.
pub Calms-plain : (s t : String) → is_plain (codes s) ≡ true → Calms t → Calms (str_append s t)
Calms-plain s t p h rest c o =
    rw (codes-append, append_assoc) (is_plain-IsCalm (codes s) _ p (h rest c o))

pub Calms-append : (s t : String) → Calms s → Calms t → Opens t → Calms (str_append s t)
Calms-append s t h k o rest c r =
    rw (codes-append, append_assoc) (h (codes t ++ rest) (k rest c r) (o rest r))

pub Calms-plain_alone : (s : String) → is_plain (codes s) ≡ true → Calms s
Calms-plain_alone s p rest c o = is_plain-IsCalm (codes s) rest p c

pub Calms-nil : Calms ""
Calms-nil rest c o = c

word_codes : (s : String) → is_simple s ≡ true → all is_word (codes s) ≡ true
word_codes s h = go (codes s) h
  where
    go : (cs : List ℕ) → is_identifier_codes cs ≡ true → all is_word cs ≡ true
    go [] h = refl
    go (c ∷ cs) h = ground arith

enclosed-IsCalm :
    (q : ℕ) (mark s : String) (rest : List ℕ)
    → is_quote q ≡ true
    → codes mark ≡ q ∷ []
    → is_simple s ≡ true
    → IsCalm rest
    → IsOpen rest
    → IsCalm (codes (cat (mark ∷ s ∷ mark ∷ [])) ++ rest)
enclosed-IsCalm q mark s rest i m h c o =
    subst IsCalm (sym spelled)
      (quote q (codes s) rest (codes s ++ q ∷ rest) i (word_codes s h) o c refl)
  where
    spelled : codes (cat (mark ∷ s ∷ mark ∷ [])) ++ rest ≡ q ∷ codes s ++ q ∷ rest
    spelled = simp (codes-append, m, append_assoc)

pub Calms-quoted : (s : String) → is_simple s ≡ true → Calms (quoted s)
Calms-quoted s h rest c o = enclosed-IsCalm b'"' "\"" s rest refl refl h c o

pub Calms-literal : (s : String) → is_simple s ≡ true → Calms (literal s)
Calms-literal s h rest c o = enclosed-IsCalm b'\'' "'" s rest refl refl h c o

digits-plain : (cs : List ℕ) → are_digits cs ≡ true → is_plain cs ≡ true
digits-plain [] h = refl
digits-plain (c ∷ []) h = ground arith
digits-plain (c ∷ d ∷ cs) h = ground (arith, digits-plain (d ∷ cs))

numeral-plain : (cs : List ℕ) → is_numeral cs ≡ true → is_plain (b'$' ∷ cs) ≡ true
numeral-plain [] h = cc
numeral-plain (d ∷ cs) h = ground (arith, digits-plain (d ∷ cs))

pub placeholder-is_plain : (n : ℕ) → is_plain (codes (placeholder n)) ≡ true
placeholder-is_plain n =
    subst (λ cs. is_plain cs ≡ true) (sym spelled)
      (numeral-plain (codes (decimal n)) (decimal-is_numeral n))
  where
    spelled : codes (placeholder n) ≡ b'$' ∷ codes (decimal n)
    spelled = simp (codes-append, append-nil)
