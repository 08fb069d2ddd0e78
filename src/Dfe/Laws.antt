-- ===== src/Dfe/Laws.antt =====
-- What the keys of two documents share.
use deelp_pkg.Dfe.{
  somente_digitos, normalizar_ambiente, normalizar_tipo, normalizar_competencia, base_documento,
  chave_documento, chave_evento, nome_artefato, nome_evento,
}
use deelp_pkg.Texto.{Texto, Unicode, codes, split, is_digit, trim_space}
use deelp_pkg.Texto.Laws.{split-linha, SemSeparador}
use mathlib.Core.List.{append_assoc}
use deelp_pkg.Prelude.{
  ℕ, [], ◌∷◌, true, false, inl, inr, refl, ◌==◌, keep, ◌++◌, ◌≡◌, Bool-cases, arith, ◌⊎◌, ℤ, Bool,
  ap, sym, if◌then◌else◌, ◌∙◌,
}

digito-ne-barra : (u : Unicode) (c : ℕ) → is_digit u c ≡ true → (c == b'/') ≡ false
unfolding is_digit
digito-ne-barra u c h = ground arith

keep-SemSeparador : (u : Unicode) (s : Texto) → SemSeparador b'/' (keep (is_digit u) s)
keep-SemSeparador u [] = refl
keep-SemSeparador u (c ∷ s) = elim (Bool-cases (is_digit u c)) [
  | inl e ↦ rw e (ground (arith, digito-ne-barra u c e, keep-SemSeparador u s))
  | inr e ↦ rw e (keep-SemSeparador u s)
]

digitos-SemSeparador : (u : Unicode) (i : Texto) → SemSeparador b'/' (somente_digitos u i)
unfolding somente_digitos
digitos-SemSeparador u i = keep-SemSeparador u i

escolha : (b : Bool) (s t : Texto) → ((if b then s else t) ≡ s) ⊎ ((if b then s else t) ≡ t)
escolha true s t = inl refl
escolha false s t = inr refl

normalizar_ambiente-cases :
    (u : Unicode) (a : Texto)
    → (normalizar_ambiente u a ≡ codes "producao") ⊎ (normalizar_ambiente u a ≡ codes "homologacao")
unfolding normalizar_ambiente
normalizar_ambiente-cases u a = escolha _ (codes "producao") (codes "homologacao")

ambiente-SemSeparador : (u : Unicode) (a : Texto) → SemSeparador b'/' (normalizar_ambiente u a)
ambiente-SemSeparador u a = elim (normalizar_ambiente-cases u a) [
  | inl e ↦ rw e refl
  | inr e ↦ rw e refl
]

-- The parts of a path, one behind the other.
abbrev seguido : Texto → Texto → Texto
seguido s resto = s ++ (b'/' ∷ resto)

base-append :
    (u : Unicode) (i a t c k resto : Texto)
    → base_documento u i a t c k ++ (b'/' ∷ resto)
      ≡ seguido (somente_digitos u i) (
          seguido (normalizar_ambiente u a) (
            seguido
              (normalizar_tipo u t)
              (seguido (normalizar_competencia c) (seguido (trim_space k) resto))))
unfolding base_documento
base-append u i a t c k resto = simp append_assoc

-- The file of a document that a key names.
pub data Arquivo : Type 0 where
  artefato : Texto → Arquivo
  evento : Texto → ℤ → Arquivo

abbrev pub chave : Unicode → Texto → Texto → Texto → Texto → Texto → Arquivo → Texto
chave u inscricao ambiente tipo competencia chave_acesso (artefato nome) =
    chave_documento u inscricao ambiente tipo competencia chave_acesso nome
chave u inscricao ambiente tipo competencia chave_acesso (evento nome seq) =
    chave_evento u inscricao ambiente tipo competencia chave_acesso nome seq

abbrev resto_de : Unicode → Arquivo → Texto
resto_de u (artefato nome) = nome_artefato u nome
resto_de u (evento nome seq) = codes "eventos/" ++ (nome_evento u nome seq ++ codes ".xml")

chave-base :
    (u : Unicode) (i a t c k : Texto) (f : Arquivo)
    → chave u i a t c k f ≡ base_documento u i a t c k ++ (b'/' ∷ resto_de u f)
unfolding chave_documento chave_evento
chave-base u i a t c k (artefato nome) = simp append_assoc
chave-base u i a t c k (evento nome seq) = simp append_assoc

chave-split :
    (u : Unicode) (i a t c k : Texto) (f : Arquivo)
    → split b'/' (chave u i a t c k f)
      ≡ somente_digitos u i
        ∷ normalizar_ambiente u a
        ∷ split b'/' (
            seguido
              (normalizar_tipo u t)
              (seguido (normalizar_competencia c) (seguido (trim_space k) (resto_de u f))))
chave-split u i a t c k f =
    ap (split b'/') (chave-base u i a t c k f ∙ base-append u i a t c k (resto_de u f))
    ∙ split-linha b'/' (somente_digitos u i) _ (digitos-SemSeparador u i)
    ∙ ap (λ r. somente_digitos u i ∷ r)
        (split-linha b'/' (normalizar_ambiente u a) _ (ambiente-SemSeparador u a))

-- Two keys that are equal, of documents or of events, are of the same digits of the inscription and of the same
-- environment, whatever else they are made from.
pub chave-somente_digitos :
    (u : Unicode) (i a t c k : Texto) (f : Arquivo) (i' a' t' c' k' : Texto) (f' : Arquivo)
    → chave u i a t c k f ≡ chave u i' a' t' c' k' f'
    → (somente_digitos u i ≡ somente_digitos u i')
      × (normalizar_ambiente u a ≡ normalizar_ambiente u a')
chave-somente_digitos u i a t c k f i' a' t' c' k' f' h =
    let e = sym (chave-split u i a t c k f) ∙ ap (split b'/') h ∙ chave-split u i' a' t' c' k' f' in
    (cc, cc)
