-- ===== src/Observabilidade/Redacao/Digitos.antt =====
-- No message leaves `redigirTexto` of observabilidade/redacao.go with ten digits in a row.
use deelp_pkg.Texto.{Texto, split}
use deelp_pkg.Texto.Laws.{split-cons, split_no_separador, split_fora}
use deelp_pkg.Observabilidade.Redacao.Regexp.{digito, replace_all}
use deelp_pkg.Observabilidade.Redacao.Mensagem.{
  texto_numero, mascarar_numero, numero_ipv4, numero_data, quatro_partes, tres_partes, dia_e_hora,
}
use deelp_pkg.Observabilidade.Redacao.Numeros.{
  seguro, comeca_por_digito, eh_numero, casar_em-texto_numero, eh_numero-append, eh_numero-digitos,
}
use mathlib.Core.Path.{subst}
use mathlib.Core.List.{append_assoc}
use deelp_pkg.Prelude.{
  [], ◌∷◌, true, false, some, ◌&&◌, Bool, List, Option, ℕ, length, leb, ltb, drop, ◌++◌, ◌+◌, ◌==◌,
  suc, zero, ◌≡◌, refl, all, inl, inr, Bool-cases, arith, ◌⊎◌, ==_iff, sym, ap, ◌∙◌, ◌-◌,
  length-append,
}

-- Parts of fewer than ten characters, the first after `k` more.
abbrev curtos : ℕ → List Texto → Bool
curtos k [] = true
curtos k (p ∷ ps) = ltb (k + length p) 10 && curtos 0 ps

curtos_de_zero : (k : ℕ) (ps : List Texto) → curtos k ps ≡ true → curtos 0 ps ≡ true
curtos_de_zero k [] h = refl
curtos_de_zero k (p ∷ ps) h = ground (arith, h)

seguro-split :
    (sep : ℕ)
    → digito sep ≡ false
    → (m : Texto) (k : ℕ) → curtos k (split sep m) ≡ true
    → seguro k m ≡ true
seguro-split sep n [] k h = refl
seguro-split sep n (c ∷ s) k h = elim (Bool-cases (c == sep)) [
  | inl e ↦
      let d : digito c ≡ false = rw ((==_iff c sep).0 e) n in
      let g : curtos k ([] ∷ split sep s) ≡ true =
        sym (ap (curtos k) (split_no_separador sep c s e)) ∙ h in
      rw d (seguro-split sep n s 0 (ground (arith, g)))
  | inr e ↦
      let (q, qs, f) = split-cons sep s in
      let g : curtos k ((c ∷ q) ∷ qs) ≡ true =
        sym (ap (curtos k) (split_fora sep c s q qs e f)) ∙ h in
      let i : curtos (suc k) (split sep s) ≡ true = rw f (ground (arith, g)) in
      let z : curtos 0 (split sep s) ≡ true = curtos_de_zero (suc k) (split sep s) i in
      ground (arith, g, seguro-split sep n s (suc k) i, seguro-split sep n s 0 z)
]

dia_e_hora_curto : (c : Texto) → dia_e_hora c ≡ true → ltb (length c) 10 ≡ true
dia_e_hora_curto [] h = refl
dia_e_hora_curto (a ∷ []) h = refl
dia_e_hora_curto (a ∷ b ∷ []) h = refl
dia_e_hora_curto (a ∷ b ∷ c ∷ s) h = ground (arith, h)

quatro_partes-curtos : (ps : List Texto) → quatro_partes ps ≡ true → curtos 0 ps ≡ true
quatro_partes-curtos [] h = refl
quatro_partes-curtos (a ∷ []) h = absurd (ground (arith, h))
quatro_partes-curtos (a ∷ b ∷ []) h = absurd (ground (arith, h))
quatro_partes-curtos (a ∷ b ∷ c ∷ []) h = absurd (ground (arith, h))
quatro_partes-curtos (a ∷ b ∷ c ∷ d ∷ []) h = ground (arith, h)
quatro_partes-curtos (a ∷ b ∷ c ∷ d ∷ e ∷ ps) h = absurd (ground (arith, h))

tres_partes-curtos : (ps : List Texto) → tres_partes ps ≡ true → curtos 0 ps ≡ true
tres_partes-curtos [] h = refl
tres_partes-curtos (a ∷ []) h = absurd (ground (arith, h))
tres_partes-curtos (a ∷ b ∷ []) h = absurd (ground (arith, h))
tres_partes-curtos (a ∷ b ∷ c ∷ []) h = ground (arith, h, dia_e_hora_curto c)
tres_partes-curtos (a ∷ b ∷ c ∷ d ∷ ps) h = absurd (ground (arith, h))

seguro-append :
    (m x : Texto) (k : ℕ)
    → seguro k m ≡ true
    → seguro 0 x ≡ true
    → comeca_por_digito x ≡ false
    → seguro k (m ++ x) ≡ true
seguro-append [] [] k h g n = refl
seguro-append [] (c ∷ x) k h g n = ground (arith, n, g)
seguro-append (c ∷ m) x k h g n =
    ground (arith, h, g, n, seguro-append m x (suc k), seguro-append m x 0)

-- A number made safe, before a text that begins with no digit.
mascarar_numero-seguro :
    (m x : Texto)
    → seguro 0 x ≡ true
    → comeca_por_digito x ≡ false
    → seguro 0 (mascarar_numero m ++ x) ≡ true
unfolding mascarar_numero numero_ipv4 numero_data
mascarar_numero-seguro m x h n = elim (Bool-cases (numero_ipv4 m)) [
  | inl e ↦
      rw e (
        seguro-append m x 0 (seguro-split b'.' refl m 0 (quatro_partes-curtos (split b'.' m) e)) h
          n)
  | inr e ↦ elim (Bool-cases (numero_data m)) [
    | inl d ↦
        rw (e, d)
          (seguro-append m x 0 (seguro-split b'-' refl m 0 (tres_partes-curtos (split b'-' m) d)) h
            n)
    | inr d ↦ rw (e, d) h
  ]
]

-- What is left of a text after `n` characters that a match has read.
abbrev pub trocado : ℕ → Option ℕ → Texto → Texto
trocado n antes t = replace_all texto_numero (λ m g. mascarar_numero m) antes n t

comeca-trocado :
    (t : Texto) (n : ℕ) (antes : Option ℕ)
    → comeca_por_digito (drop n t) ≡ false
    → comeca_por_digito (trocado n antes t) ≡ false
unfolding replace_all
comeca-trocado [] n antes h = refl
comeca-trocado (c ∷ s) (suc n) antes h = comeca-trocado s n (some c) h
comeca-trocado (c ∷ s) zero antes h = elim (casar_em-texto_numero antes (c ∷ s)) [
  | inl (t, _, _, _, _, _) ↦ absurd (ground (arith, t, h))
  | inr (t, e) ↦ rw e h
]

-- After digits that begin no number, and after a match.
abbrev pub Seguros : Texto → Type 0
Seguros t =
    (antes : Option ℕ)
    → ((ds : Texto)
        → all digito ds ≡ true
        → (ds ≡ []) ⊎ (eh_numero (ds ++ t) ≡ false)
        → seguro (length ds) (trocado 0 antes t) ≡ true)
      × ((n : ℕ) → seguro 0 (trocado n antes t) ≡ true)

all-append_digito :
    (c : ℕ)
    → digito c ≡ true
    → (ds : Texto) → all digito ds ≡ true
    → all digito (ds ++ c ∷ []) ≡ true
all-append_digito c d [] h = rw d refl
all-append_digito c d (a ∷ ds) h = ground (arith, h, all-append_digito c d ds)

seguro_guardado :
    (c : ℕ) (s : Texto)
    → Seguros s
    → (ds : Texto) → all digito ds ≡ true
    → eh_numero (ds ++ c ∷ s) ≡ false
    → seguro (length ds) (c ∷ trocado 0 (some c) s) ≡ true
seguro_guardado c s ih ds h n = elim (Bool-cases (digito c)) [
  | inl d ↦
      let a = all-append_digito c d ds h in
      let k : eh_numero ((ds ++ c ∷ []) ++ s) ≡ false = rw (append_assoc ds (c ∷ []) s) n in
      let l : length (ds ++ c ∷ []) ≡ suc (length ds) = omega (arith, length-append ds (c ∷ [])) in
      let x : seguro (suc (length ds)) (trocado 0 (some c) s) ≡ true =
        subst (λ k. seguro k (trocado 0 (some c) s) ≡ true) l
          ((ih (some c)).0 (ds ++ c ∷ []) a (inr k)) in
      rw (d, x)
        (elim (Bool-cases (leb 10 (length (ds ++ c ∷ [])))) [
          | inl b ↦ absurd (ground (arith, k, eh_numero-digitos (ds ++ c ∷ []) s a b))
          | inr b ↦ ground (arith, b, l)
        ])
  | inr d ↦ rw d ((ih (some c)).0 [] refl (inl refl))
]

seguro_aqui :
    (c : ℕ) (s : Texto)
    → Seguros s
    → (antes : Option ℕ) (ds : Texto) → all digito ds ≡ true
    → (ds ≡ []) ⊎ (eh_numero (ds ++ c ∷ s) ≡ false)
    → seguro (length ds) (trocado 0 antes (c ∷ s)) ≡ true
unfolding replace_all
seguro_aqui c s ih antes ds h v = elim (casar_em-texto_numero antes (c ∷ s)) [
  | inl (t, m, e, j, l, f) ↦ elim v [
    | inl d ↦
        let k : m.lido - 1 ≡ j = omega (arith, l) in
        rw (d, e, k)
          (mascarar_numero-seguro _ _ ((ih (some c)).1 j) (comeca-trocado s j (some c) f))
    | inr n ↦ absurd (ground (arith, n, eh_numero-append ds (c ∷ s) h t))
  ]
  | inr (t, e) ↦ rw e (seguro_guardado c s ih ds h (elim v [ inl d ↦ rw d t | inr n ↦ n ]))
]

seguro_depois :
    (c : ℕ) (s : Texto)
    → Seguros s
    → (antes : Option ℕ) (n : ℕ) → seguro 0 (trocado n antes (c ∷ s)) ≡ true
unfolding replace_all
seguro_depois c s ih antes zero = seguro_aqui c s ih antes [] refl (inl refl)
seguro_depois c s ih antes (suc n) = (ih (some c)).1 n

pub trocado-seguro : (t : Texto) → Seguros t
unfolding replace_all
trocado-seguro [] antes = (λ ds h v. refl, λ n. refl)
trocado-seguro (c ∷ s) antes =
    let ih = trocado-seguro s in (seguro_aqui c s ih antes, seguro_depois c s ih antes)
