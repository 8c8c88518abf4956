-- ===== src/Storage/Texts/Like.antt =====
-- What SQLite reads in a pattern with ESCAPE '\', and that an escaped text stands for itself.
use packet_lab.Prelude.{
  ℕ, ◌≡◌, refl, sym, ap, subst, ==_iff, ◌∙◌, false, List, [], ◌∷◌, ◌++◌, ◌==◌, if◌then◌else◌, Bytes,
  map, Bool-cases, inl, inr, append_assoc,
}
use packet_lab.Storage.Texts.{replace_all, escape_like}

-- a piece of a pattern: a byte that stands for itself, or a wildcard
pub data Piece : Type 0 where
  literal : ℕ → Piece
  any_one : Piece
  any_many : Piece

abbrev plain : ℕ → Piece
plain c = if c == b'%' then any_many else if c == b'_' then any_one else literal c

-- the pieces of a pattern, with a backslash in front of a byte that stands for itself
unfoldable pub read_pattern : Bytes → List Piece
read_pattern [] = []
read_pattern (c ∷ []) = plain c ∷ []
read_pattern (c ∷ (d ∷ s)) =
    let escaped = read_pattern s in
    let next = read_pattern (d ∷ s) in if c == b'\\' then literal d ∷ escaped else plain c ∷ next

-- the escape of one byte
abbrev escaped : ℕ → Bytes
escaped c =
    if c == b'\\'
    then b'\\' ∷ b'\\' ∷ []
    else if c == b'%'
    then b'\\' ∷ b'%' ∷ []
    else if c == b'_'
    then b'\\' ∷ b'_' ∷ []
    else c ∷ []

escape_like_cons : (c : ℕ) (s : Bytes) → escape_like (c ∷ s) ≡ escaped c ++ escape_like s
unfolding escape_like replace_all
escape_like_cons c s = elim (Bool-cases (c == b'\\')) [
  | inl slash ↦ at b'\\' ((==_iff c b'\\').0 slash) refl
  | inr other ↦ elim (Bool-cases (c == b'%')) [
    | inl percent ↦ at b'%' ((==_iff c b'%').0 percent) refl
    | inr no_percent ↦ elim (Bool-cases (c == b'_')) [
      | inl mark ↦ at b'_' ((==_iff c b'_').0 mark) refl
      | inr no_mark ↦ rw (escape_like, replace_all, other, no_percent, no_mark)
    ]
  ]
]
  where
    at :
        (d : ℕ)
        → c ≡ d
        → escape_like (d ∷ s) ≡ escaped d ++ escape_like s
        → escape_like (c ∷ s) ≡ escaped c ++ escape_like s
    at d e h = subst (λ x. escape_like (x ∷ s) ≡ escaped x ++ escape_like s) (sym e) h

read_escaped : (c : ℕ) (s : Bytes) → read_pattern (escaped c ++ s) ≡ literal c ∷ read_pattern s
unfolding read_pattern
read_escaped c s = elim (Bool-cases (c == b'\\')) [
  | inl slash ↦ at b'\\' ((==_iff c b'\\').0 slash) refl
  | inr other ↦ elim (Bool-cases (c == b'%')) [
    | inl percent ↦ at b'%' ((==_iff c b'%').0 percent) refl
    | inr no_percent ↦ elim (Bool-cases (c == b'_')) [
      | inl mark ↦ at b'_' ((==_iff c b'_').0 mark) refl
      | inr no_mark ↦ rw (other, no_percent, no_mark) (bare s other no_percent no_mark)
    ]
  ]
]
  where
    at :
        (d : ℕ)
        → c ≡ d
        → read_pattern (escaped d ++ s) ≡ literal d ∷ read_pattern s
        → read_pattern (escaped c ++ s) ≡ literal c ∷ read_pattern s
    at d e h = subst (λ x. read_pattern (escaped x ++ s) ≡ literal x ∷ read_pattern s) (sym e) h

    bare :
        (t : Bytes)
        → (c == b'\\') ≡ false
        → (c == b'%') ≡ false
        → (c == b'_') ≡ false
        → read_pattern (c ∷ t) ≡ literal c ∷ read_pattern t
    bare [] h k l = rw (read_pattern, k, l)
    bare (d ∷ t) h k l = rw (read_pattern, h, k, l)

-- An escaped text stands for itself in a pattern, whatever follows it.
pub read_pattern-escape_like :
    (s rest : Bytes) → read_pattern (escape_like s ++ rest) ≡ map literal s ++ read_pattern rest
unfolding escape_like replace_all
read_pattern-escape_like [] rest = refl
read_pattern-escape_like (c ∷ s) rest =
    ap (λ t. read_pattern (t ++ rest)) (escape_like_cons c s)
    ∙ ap read_pattern (append_assoc (escaped c) (escape_like s) rest)
    ∙ read_escaped c (escape_like s ++ rest)
    ∙ ap (λ ps. literal c ∷ ps) (read_pattern-escape_like s rest)
