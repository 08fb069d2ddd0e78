-- ===== src/Tenantdados/Csv/RoundTrip.antt =====
-- What a reader of the format finds in the CSV of a source.
use deelp_pkg.Texto.{Texto}
use mathlib.Core.List.{append_assoc}
use deelp_pkg.Tenantdados.Csv.{
  Valor, valor_csv, utf8, bom_utf8, especial, precisa_aspas, dobrar_aspas, escrever_campo,
  escrever_demais, escrever_registro, registro, escrever_linhas, montar_csv,
}
use deelp_pkg.Prelude.{
  [], ◌∷◌, false, inl, inr, refl, ◌==◌, List, any, ℕ, ◌++◌, if◌then◌else◌, ◌≡◌, Bool-cases, arith,
  ◌∙◌, some, All, length, map, take, ◌≤◌,
}

-- A reader of separated values: at the start of a record or of a field, in a field without quotes, inside
-- quotes, and after a quote inside quotes.
pub data Modo : Type 0 where
  inicio campo livre citado aspas : Modo

-- A character in front of the first field, an empty field in front of the first record.
abbrev junta : ℕ → List (List Texto) → List (List Texto)
junta c [] = ((c ∷ []) ∷ []) ∷ []
junta c ([] ∷ rs) = ((c ∷ []) ∷ []) ∷ rs
junta c ((f ∷ r) ∷ rs) = ((c ∷ f) ∷ r) ∷ rs

abbrev novo_campo : List (List Texto) → List (List Texto)
novo_campo [] = ([] ∷ []) ∷ []
novo_campo (r ∷ rs) = ([] ∷ r) ∷ rs

abbrev fora : ℕ → (Modo → List (List Texto)) → List (List Texto)
fora c k =
    if c == b';'
    then novo_campo (k campo)
    else if c == 10
    then ([] ∷ []) ∷ k inicio
    else junta c (k livre)

abbrev entrando : ℕ → (Modo → List (List Texto)) → List (List Texto)
entrando c k = if c == b'"' then k citado else fora c k

abbrev passo : Modo → ℕ → (Modo → List (List Texto)) → List (List Texto)
passo inicio c k = entrando c k
passo campo c k = entrando c k
passo livre c k = fora c k
passo citado c k = if c == b'"' then k aspas else junta c (k citado)
passo aspas c k = if c == b'"' then junta c (k citado) else fora c k

unfoldable pub ler : Texto → Modo → List (List Texto)
ler [] inicio = []
ler [] campo = ([] ∷ []) ∷ []
ler [] livre = ([] ∷ []) ∷ []
ler [] citado = ([] ∷ []) ∷ []
ler [] aspas = ([] ∷ []) ∷ []
ler (c ∷ s) m = passo m c (ler s)

-- The text, then a field that starts the rest.
abbrev juntas : Texto → List (List Texto) → List (List Texto)
juntas [] rs = rs
juntas (c ∷ f) rs = junta c (juntas f rs)

juntas-eq :
    (f : Texto) (r : List Texto) (rs : List (List Texto)) → juntas f (([] ∷ r) ∷ rs) ≡ (f ∷ r) ∷ rs
juntas-eq [] r rs = refl
juntas-eq (c ∷ f) r rs = rw (juntas-eq f r rs) refl

ler-dobrar_aspas :
    (f s : Texto) → ler (dobrar_aspas f ++ (b'"' ∷ s)) citado ≡ juntas f (ler s aspas)
unfolding ler dobrar_aspas
ler-dobrar_aspas [] s = refl
ler-dobrar_aspas (c ∷ f) s = elim (Bool-cases (c == b'"')) [
  | inl e ↦ rw (e, ler, e, ler-dobrar_aspas f s) refl
  | inr e ↦ rw (e, ler, e, ler-dobrar_aspas f s) refl
]

ler-livre : (f s : Texto) → any especial f ≡ false → ler (f ++ s) livre ≡ juntas f (ler s livre)
unfolding ler
ler-livre [] s h = refl
ler-livre (c ∷ f) s h =
    let e : (c == b';') ≡ false = ground arith in
    let n : (c == 10) ≡ false = ground arith in rw (e, n, ler-livre f s (ground arith)) refl

abbrev IsCampoNovo : Modo → Type 0
IsCampoNovo inicio = Unit
IsCampoNovo campo = Unit
IsCampoNovo livre = ⊥
IsCampoNovo citado = ⊥
IsCampoNovo aspas = ⊥

-- The text is read as `X` wherever a field may end, and as an empty field where one starts.
abbrev Delimita : Texto → List (List Texto) → Type 0
Delimita s X = ((m : Modo) → IsCampoNovo m → ler s m ≡ X) × (ler s livre ≡ X) × (ler s aspas ≡ X)

ler-citado : (t : Texto) (m : Modo) → IsCampoNovo m → ler (b'"' ∷ t) m ≡ ler t citado
unfolding ler
ler-citado t inicio k = refl
ler-citado t campo k = refl
ler-citado t livre k = absurd k
ler-citado t citado k = absurd k
ler-citado t aspas k = absurd k

ler-direto :
    (c : ℕ) (f : Texto) (m : Modo)
    → IsCampoNovo m
    → (c == b'"') ≡ false
    → ler (c ∷ f) m ≡ ler (c ∷ f) livre
unfolding ler
ler-direto c f inicio k h = rw h refl
ler-direto c f campo k h = rw h refl
ler-direto c f livre k h = refl
ler-direto c f citado k h = absurd k
ler-direto c f aspas k h = absurd k

sem_especial : (f : Texto) → precisa_aspas f ≡ false → any especial f ≡ false
unfolding precisa_aspas
sem_especial [] h = refl
sem_especial (c ∷ f) h = ground arith

ler-escrever_campo :
    (f s : Texto) (X : List (List Texto)) (m : Modo)
    → Delimita s X
    → IsCampoNovo m
    → ler (escrever_campo f ++ s) m ≡ juntas f X
unfolding escrever_campo
ler-escrever_campo f s X m h k = elim (Bool-cases (precisa_aspas f)) [
  | inl e ↦ rw e (
      ler-citado ((dobrar_aspas f ++ b'"' ∷ []) ++ s) m k
      ∙ rw (append_assoc (dobrar_aspas f) (b'"' ∷ []) s, ler-dobrar_aspas f s, h.2) refl)
  | inr e ↦ rw e (direto f (sem_especial f e))
]
  where
    direto : (f : Texto) → any especial f ≡ false → ler (f ++ s) m ≡ juntas f X
    direto [] n = h.0 m k
    direto (c ∷ f) n =
        ler-direto c (f ++ s) m k (ground arith) ∙ rw (ler-livre (c ∷ f) s n, h.1) refl

escrever_demais-Delimita :
    (fs : List Texto) (s : Texto) → Delimita (escrever_demais fs ++ s) (([] ∷ fs) ∷ ler s inicio)
unfolding escrever_demais ler
escrever_demais-Delimita [] s = (novo, refl, refl)
  where
    novo : (m : Modo) → IsCampoNovo m → ler (10 ∷ s) m ≡ ([] ∷ []) ∷ ler s inicio
    novo inicio k = refl
    novo campo k = refl
    novo livre k = absurd k
    novo citado k = absurd k
    novo aspas k = absurd k
escrever_demais-Delimita (g ∷ gs) s =
    let ih = escrever_demais-Delimita gs s in (novo ih, depois ih, depois ih)
  where
    depois :
        Delimita (escrever_demais gs ++ s) (([] ∷ gs) ∷ ler s inicio)
        → novo_campo (ler ((escrever_campo g ++ escrever_demais gs) ++ s) campo)
          ≡ ([] ∷ g ∷ gs) ∷ ler s inicio
    depois ih =
        rw
          (
            append_assoc (escrever_campo g) (escrever_demais gs) s,
            ler-escrever_campo g (escrever_demais gs ++ s) _ campo ih tt,
            juntas-eq g gs (ler s inicio),
          )
          refl

    novo :
        Delimita (escrever_demais gs ++ s) (([] ∷ gs) ∷ ler s inicio)
        → (m : Modo) → IsCampoNovo m
        → ler (b';' ∷ ((escrever_campo g ++ escrever_demais gs) ++ s)) m
          ≡ ([] ∷ g ∷ gs) ∷ ler s inicio
    novo ih inicio k = depois ih
    novo ih campo k = depois ih
    novo ih livre k = absurd k
    novo ih citado k = absurd k
    novo ih aspas k = absurd k

ler-escrever_registro :
    (f : Texto) (fs : List Texto) (s : Texto)
    → ler (escrever_registro (f ∷ fs) ++ s) inicio ≡ (f ∷ fs) ∷ ler s inicio
unfolding escrever_registro
ler-escrever_registro f fs s =
    rw
      (
        append_assoc (escrever_campo f) (escrever_demais fs) s,
        ler-escrever_campo f (escrever_demais fs ++ s) _ inicio (escrever_demais-Delimita fs s) tt,
        juntas-eq f fs (ler s inicio),
      )
      refl

-- The cells of a row that the columns name.
abbrev pub celulas : List Texto → List Valor → List Texto
celulas colunas linha = map valor_csv (take (length colunas) linha)

registro-celulas :
    (colunas : List Texto) (linha : List Valor)
    → length colunas ≤ length linha
    → registro colunas linha ≡ some (celulas colunas linha)
unfolding registro
registro-celulas [] linha h = refl
registro-celulas (k ∷ ks) [] h = absurd (omega arith)
registro-celulas (k ∷ ks) (v ∷ vs) h = rw (registro-celulas ks vs (omega arith)) refl

escrever_linhas-ler :
    (k : Texto) (ks : List Texto) (linhas : List (List Valor))
    → All (λ l. length (k ∷ ks) ≤ length l) linhas
    → (t : Texto) × (escrever_linhas (k ∷ ks) linhas ≡ some t)
      × (ler t inicio ≡ map (celulas (k ∷ ks)) linhas)
unfolding escrever_linhas ler
escrever_linhas-ler k ks [] h = ([], refl, refl)
escrever_linhas-ler k ks ([] ∷ ls) (h, hs) = absurd (omega arith)
escrever_linhas-ler k ks ((v ∷ vs) ∷ ls) (h, hs) =
    let (t, e, f) = escrever_linhas-ler k ks ls hs in
    (
      escrever_registro (celulas (k ∷ ks) (v ∷ vs)) ++ t,
      rw (escrever_linhas, registro-celulas (k ∷ ks) (v ∷ vs) h, e) refl,
      rw (ler-escrever_registro (valor_csv v) (map valor_csv (take (length ks) vs)) t, f) refl,
    )

-- With a column, and in every row a value for each, the bytes of the CSV are the mark of UTF-8 and a text of
-- which a reader of the format makes the header and then each row's cells, whatever these contain.
pub montar_csv-ler :
    (k : Texto) (ks : List Texto) (linhas : List (List Valor))
    → All (λ l. length (k ∷ ks) ≤ length l) linhas
    → (t : Texto) × (montar_csv (k ∷ ks) linhas ≡ some (bom_utf8 ++ utf8 t))
      × (ler t inicio ≡ (k ∷ ks) ∷ map (celulas (k ∷ ks)) linhas)
unfolding montar_csv
montar_csv-ler k ks linhas h =
    let (t, e, f) = escrever_linhas-ler k ks linhas h in
    (
      escrever_registro (k ∷ ks) ++ t,
      rw (montar_csv, e) refl,
      rw (ler-escrever_registro k ks t, f) refl,
    )
