-- ===== src/Texto/Laws.antt =====
-- Laws of the string functions, for the modules that use them shut.
use deelp_pkg.Prelude.{
  ◌≡◌, refl, ◌↔◌, true, [], ◌∷◌, ◌++◌, arith, length, drop, inl, inr, ◌==◌, ℕ, all, not, Bool-cases,
  false, All, List, ◌∙◌,
}
use deelp_pkg.Prelude.{==_iff}
use deelp_pkg.Texto.{
  Texto, Unicode, eq_texto, vazio, has_prefix, has_suffix, equal_fold, split, push_head, join,
}

pub eq_texto_refl : (s : Texto) → eq_texto s s ≡ true
unfolding eq_texto
eq_texto_refl [] = refl
eq_texto_refl (c ∷ s) = ground (arith, eq_texto_refl s)

pub eq_texto→eq : (s t : Texto) → eq_texto s t ≡ true → s ≡ t
unfolding eq_texto
eq_texto→eq [] [] h = refl
eq_texto→eq [] (b ∷ t) h = ground arith
eq_texto→eq (a ∷ s) [] h = ground arith
eq_texto→eq (a ∷ s) (b ∷ t) h = ground (arith, eq_texto→eq s t)

pub eq→eq_texto : (s t : Texto) → s ≡ t → eq_texto s t ≡ true
eq→eq_texto s t e = rw e (eq_texto_refl t)

-- The Boolean equality of strings decides equality.
pub eq_texto_iff : (s t : Texto) → (eq_texto s t ≡ true) ↔ (s ≡ t)
eq_texto_iff s t = (eq_texto→eq s t, eq→eq_texto s t)

pub vazio_iff : (s : Texto) → (vazio s ≡ true) ↔ (s ≡ [])
vazio_iff [] = ground arith
vazio_iff (c ∷ s) = ground arith

pub equal_fold_refl : (u : Unicode) (s : Texto) → equal_fold u s s ≡ true
unfolding equal_fold
equal_fold_refl u [] = refl
equal_fold_refl u (c ∷ s) = ground (arith, equal_fold_refl u s)

pub equal_fold-length : (u : Unicode) (s t : Texto) → equal_fold u s t ≡ true → length s ≡ length t
unfolding equal_fold
equal_fold-length u [] [] h = refl
equal_fold-length u [] (b ∷ t) h = ground arith
equal_fold-length u (a ∷ s) [] h = ground arith
equal_fold-length u (a ∷ s) (b ∷ t) h = ground (arith, equal_fold-length u s t)

-- A string with the prefix is the prefix and a rest.
pub has_prefix-eq : (s p : Texto) → has_prefix s p ≡ true → s ≡ p ++ drop (length p) s
unfolding has_prefix
has_prefix-eq s [] h = refl
has_prefix-eq [] (b ∷ p) h = ground arith
has_prefix-eq (a ∷ s) (b ∷ p) h = ground (arith, has_prefix-eq s p)

pub has_prefix-append : (p s : Texto) → has_prefix (p ++ s) p ≡ true
unfolding has_prefix
has_prefix-append [] s = refl
has_prefix-append (c ∷ p) s = ground (arith, has_prefix-append p s)

pub has_suffix-append : (s suf : Texto) → has_suffix (s ++ suf) suf ≡ true
unfolding has_suffix
has_suffix-append [] [] = refl
has_suffix-append [] (c ∷ suf) = ground (arith, eq_texto_refl (c ∷ suf))
has_suffix-append (c ∷ s) suf = ground (arith, has_suffix-append s suf)

-- A line without the separator, the separator and a rest are split into the line and the parts of the rest.
pub split-linha :
    (sep : ℕ) (l s : Texto)
    → all (λ c. not (c == sep)) l ≡ true
    → split sep (l ++ (sep ∷ s)) ≡ l ∷ split sep s
unfolding split push_head
split-linha sep [] s h = rw ((==_iff sep sep).1 refl) refl
split-linha sep (c ∷ l) s h = elim (Bool-cases (c == sep)) [
  | inl e ↦ absurd (ground arith)
  | inr e ↦ rw (e, split-linha sep l s (ground arith), push_head) refl
]

-- No part of a text split at a separator contains it.
abbrev pub SemSeparador : ℕ → Texto → Type 0
SemSeparador sep s = all (λ c. not (c == sep)) s ≡ true

push_head-All :
    (sep c : ℕ) (ps : List Texto)
    → (c == sep) ≡ false
    → All (SemSeparador sep) ps
    → All (SemSeparador sep) (push_head c ps)
unfolding push_head
push_head-All sep c [] h k = (ground arith, tt)
push_head-All sep c (p ∷ ps) h (k, ks) = (ground arith, ks)

pub split-SemSeparador : (sep : ℕ) (s : Texto) → All (SemSeparador sep) (split sep s)
unfolding split
split-SemSeparador sep [] = (refl, tt)
split-SemSeparador sep (c ∷ s) = elim (Bool-cases (c == sep)) [
  | inl e ↦ rw e (refl, split-SemSeparador sep s)
  | inr e ↦ rw e (push_head-All sep c (split sep s) e (split-SemSeparador sep s))
]

pub split-limpo : (sep : ℕ) (p : Texto) → SemSeparador sep p → split sep p ≡ p ∷ []
unfolding split push_head
split-limpo sep [] h = refl
split-limpo sep (c ∷ p) h =
    let e : (c == sep) ≡ false = ground arith in
    rw (e, split-limpo sep p (ground arith), push_head) refl

-- Parts without the separator, joined by it, are split into themselves.
pub split-join :
    (sep : ℕ) (p : Texto) (ps : List Texto)
    → All (SemSeparador sep) (p ∷ ps)
    → split sep (join sep (p ∷ ps)) ≡ p ∷ ps
unfolding join
split-join sep p [] (h, _) = split-limpo sep p h
split-join sep p (q ∷ ps) (h, hs) =
    split-linha sep p (join sep (q ∷ ps)) h ∙ rw (split-join sep q ps hs) refl

pub split-cons : (sep : ℕ) (s : Texto) → (p : Texto) × (ps : List Texto) × (split sep s ≡ p ∷ ps)
unfolding split push_head
split-cons sep [] = ([], [], refl)
split-cons sep (c ∷ s) = elim (Bool-cases (c == sep)) [
  | inl e ↦ ([], split sep s, rw e refl)
  | inr e ↦ let (p, ps, f) = split-cons sep s in (c ∷ p, ps, rw (e, f, push_head) refl)
]

pub split_no_separador :
    (sep c : ℕ) (s : Texto) → (c == sep) ≡ true → split sep (c ∷ s) ≡ [] ∷ split sep s
unfolding split
split_no_separador sep c s e = rw e refl

pub split_fora :
    (sep c : ℕ) (s p : Texto) (ps : List Texto)
    → (c == sep) ≡ false
    → split sep s ≡ p ∷ ps
    → split sep (c ∷ s) ≡ (c ∷ p) ∷ ps
unfolding split push_head
split_fora sep c s p ps e f = rw (e, f) refl
