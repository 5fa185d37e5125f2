-- ===== src/Utils/Lines/Laws.antt =====
-- Reading back lines and fields.
use meta_pb.Common.{
  ℕ, ◌≡◌, ◌≢◌, refl, ap, [], ◌∷◌, ◌++◌, none, some, All, ◌==◌, false, arith, ==_refl,
}
use meta_pb.Utils.Lines.{Text, newline, cons_first, lines, split_at}

-- A text in which a character does not occur.
abbrev pub Without : ℕ → Text → Type 0
Without c t = All (λ x. x ≢ c) t

pub ne-eq : (a b : ℕ) → a ≢ b → (a == b) ≡ false
ne-eq a b h = ground arith

pub lines-newline :
    (l rest : Text) → Without newline l → lines (l ++ (newline ∷ rest)) ≡ l ∷ lines rest
unfolding lines
lines-newline [] rest h = refl
lines-newline (c ∷ l) rest h =
    rw (ne-eq c newline h.0) (ap (cons_first c) (lines-newline l rest h.1))

pub lines-last : (c : ℕ) (l : Text) → Without newline (c ∷ l) → lines (c ∷ l) ≡ (c ∷ l) ∷ []
unfolding lines
lines-last c [] h = rw (ne-eq c newline h.0) refl
lines-last c (d ∷ l) h = rw (ne-eq c newline h.0) (ap (cons_first c) (lines-last d l h.1))

pub split_at-delimiter :
    (d : ℕ) (l rest : Text) → Without d l → split_at d (l ++ (d ∷ rest)) ≡ (l, some rest)
unfolding split_at
split_at-delimiter d [] rest h = rw (==_refl d) refl
split_at-delimiter d (c ∷ l) rest h = rw (ne-eq c d h.0, split_at-delimiter d l rest h.1) refl

pub split_at-last : (d : ℕ) (l : Text) → Without d l → split_at d l ≡ (l, none)
unfolding split_at
split_at-last d [] h = refl
split_at-last d (c ∷ l) h = rw (ne-eq c d h.0, split_at-last d l h.1) refl

pub Without-append : (c : ℕ) (s t : Text) → Without c s → Without c t → Without c (s ++ t)
Without-append c [] t h k = k
Without-append c (x ∷ s) t h k = (h.0, Without-append c s t h.1 k)

pub lines-line :
    (s : Text) (c : ℕ) (t : Text)
    → Without newline (s ++ (c ∷ t))
    → lines (s ++ (c ∷ t)) ≡ (s ++ (c ∷ t)) ∷ []
lines-line [] c t h = lines-last c t h
lines-line (x ∷ s) c t h = lines-last x (s ++ (c ∷ t)) h
