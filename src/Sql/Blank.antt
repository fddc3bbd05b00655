-- ===== src/Sql/Blank.antt =====
-- White space and comments as a grammar, and the loops that pass over them.
use trolley.Base.{
  ℕ, zero, suc, true, false, ◌≡◌, ◌≢◌, inl, inr, some, List, [], ◌∷◌, ◌==◌, arith, Bool-cases,
  is_space,
}
use trolley.Sql.{Position, skip_line, is_pair, skip_block}

-- White space and comments, as a grammar: `InLine` is the text from inside a line comment on, and
-- `InBlock` from inside so many block comments on.
mutual
  pub data IsBlank : List ℕ → Type 0 where
    end : IsBlank []
    space : {a : ℕ} {s : List ℕ} → is_space a ≡ true → IsBlank s → IsBlank (a ∷ s)
    line : {a b : ℕ} {s : List ℕ} → a ≡ b'-' → b ≡ b'-' → InLine s → IsBlank (a ∷ b ∷ s)
    block : {a b : ℕ} {s : List ℕ} → a ≡ b'/' → b ≡ b'*' → InBlock 1 s → IsBlank (a ∷ b ∷ s)

  pub data InLine : List ℕ → Type 0 where
    stop : InLine []
    newline : {a : ℕ} {s : List ℕ} → a ≡ b'\n' → IsBlank s → InLine (a ∷ s)
    char : {a : ℕ} {s : List ℕ} → a ≢ b'\n' → InLine s → InLine (a ∷ s)

  pub data InBlock : ℕ → List ℕ → Type 0 where
    out : {s : List ℕ} → IsBlank s → InBlock zero s
    opening :
        {d a b : ℕ} {s : List ℕ}
        → is_pair b'/' b'*' a b ≡ true
        → InBlock (suc (suc d)) s
        → InBlock (suc d) (a ∷ b ∷ s)
    closing :
        {d a b : ℕ} {s : List ℕ}
        → is_pair b'*' b'/' a b ≡ true
        → InBlock d s
        → InBlock (suc d) (a ∷ b ∷ s)
    other :
        {d a b : ℕ} {s : List ℕ}
        → is_pair b'/' b'*' a b ≡ false
        → is_pair b'*' b'/' a b ≡ false
        → InBlock (suc d) (b ∷ s)
        → InBlock (suc d) (a ∷ b ∷ s)

pub skip_line-InLine : (done rest : List ℕ) → IsBlank (skip_line done rest).1 → InLine rest
unfolding skip_line
skip_line-InLine done [] h = stop
skip_line-InLine done (a ∷ rest) h = elim (Bool-cases (a == b'\n')) [
  | inl e ↦ newline (ground arith) (rw (e, skip_line) at h)
  | inr e ↦ char (ground arith) (skip_line-InLine (a ∷ done) rest (rw (e, skip_line) at h))
]

pub skip_block-InBlock :
    (depth : ℕ) (done rest : List ℕ) (p : Position)
    → skip_block depth done rest ≡ some p
    → IsBlank p.1
    → InBlock depth rest
unfolding skip_block
skip_block-InBlock zero done rest p e h = let same : rest ≡ p.1 = ground arith in out (rw same h)
skip_block-InBlock (suc depth) done [] p e h = cc
skip_block-InBlock (suc depth) done (a ∷ []) p e h = cc
skip_block-InBlock (suc depth) done (a ∷ b ∷ rest) p e h =
    elim (Bool-cases (is_pair b'/' b'*' a b)) [
      | inl o ↦
          opening o (skip_block-InBlock (suc (suc depth)) (b ∷ a ∷ done) rest p (ground arith) h)
      | inr n ↦ elim (Bool-cases (is_pair b'*' b'/' a b)) [
        | inl c ↦ closing c (skip_block-InBlock depth (b ∷ a ∷ done) rest p (ground arith) h)
        | inr i ↦
            other n i (skip_block-InBlock (suc depth) (a ∷ done) (b ∷ rest) p (ground arith) h)
      ]
    ]
