-- ===== src/Tenantdados/Retencao.antt =====
-- Sources that a purge leaves alone: tables, collections and prefixes declared as retained, and collections
-- that are only exported.
use deelp_pkg.Tenantdados.{
  Fonte, Contagem, RelatorioExpurgo, Expurgo, contar_ou_apagar, seguir, expurgar_fontes, expurgar,
  eq_ℤ,
}
use deelp_pkg.Tenantdados.Parada.{eq_ℤ_iff}
use deelp_pkg.Tenantdados.S3.{Armazenamento, PrefixoS3, fonte_s3, apagar_s3}
use deelp_pkg.Tenantdados.Postgres.{BancoPg, TabelaPg, fonte_pg, apagar_pg}
use deelp_pkg.Tenantdados.Mongo.{BancoMongo, ColecaoMongo, fonte_mongo, apagar_mongo, fase_mongo}
use deelp_pkg.Texto.{Texto}
use deelp_pkg.Prelude.{
  [], true, false, some, none, ◌∷◌, pos, inl, inr, refl, ◌||◌, Bool, Option, ℤ, List, ◌≡◌, All,
  Bool-cases, ◌∙◌, ◌&&◌, arith, map, not,
}

-- A declaration of a source.
pub data Declarada : Type 0 where
  tabela_pg : TabelaPg → Declarada
  colecao_mongo : ColecaoMongo → Declarada
  prefixo_s3 : PrefixoS3 → Declarada

abbrev pub protegida : Declarada → Bool
protegida (tabela_pg t) = t.retida
protegida (colecao_mongo c) = c.retida || c.somente_exportar
protegida (prefixo_s3 p) = p.retida

module _ {S : Type 0} where
  -- Where the source is of the phase, it leaves the store as it is.
  abbrev Intocada : ℤ → Bool → Fonte S → Type 0
  Intocada fase simular f = eq_ℤ f.fase fase ≡ true → (s : S) → (contar_ou_apagar simular f s).0 ≡ s

  seguir-intocado :
      (resto : S → RelatorioExpurgo → S × Expurgo) (r : RelatorioExpurgo) (nome : Texto)
      (x : S × Option Contagem)
      → ((u : S) (q : RelatorioExpurgo) → (resto u q).0 ≡ u)
      → (seguir resto r nome x).0 ≡ x.0
  seguir-intocado resto r nome (s, none) h = refl
  seguir-intocado resto r nome (s, some c) h = h s _

  expurgar_fontes-intocado :
      (fase : ℤ) (simular : Bool) (fs : List (Fonte S)) (s : S) (r : RelatorioExpurgo)
      → All (Intocada fase simular) fs
      → (expurgar_fontes fase simular fs s r).0 ≡ s
  unfolding expurgar_fontes
  expurgar_fontes-intocado fase simular [] s r h = refl
  expurgar_fontes-intocado fase simular (f ∷ fs) s r (h, hs) =
      elim (Bool-cases (eq_ℤ f.fase fase)) [
        | inr e ↦ rw e (expurgar_fontes-intocado fase simular fs s r hs)
        | inl e ↦ rw e (
            seguir-intocado (expurgar_fontes fase simular fs) r f.nome
              (contar_ou_apagar simular f s)
              (λ u q. expurgar_fontes-intocado fase simular fs u q hs)
            ∙ h e s)
      ]

module _ {S : Type 0} (pg : BancoPg S) (mongo : BancoMongo S) (uuid_de_bytes : Texto → Option Texto)
    (s3 : Armazenamento S) where
  abbrev pub fonte_de : Declarada → Fonte S
  fonte_de (tabela_pg t) = fonte_pg pg t
  fonte_de (colecao_mongo c) = fonte_mongo uuid_de_bytes mongo c
  fonte_de (prefixo_s3 p) = fonte_s3 s3 p

  protegida-Intocada :
      (fase : ℤ) (simular : Bool) (d : Declarada)
      → eq_ℤ (pos 0) fase ≡ false
      → protegida d ≡ true
      → Intocada fase simular (fonte_de d)
  unfolding fonte_pg fonte_mongo fonte_s3 apagar_pg apagar_mongo apagar_s3 fase_mongo
  protegida-Intocada fase true d z h = λ e s. refl
  protegida-Intocada fase false (tabela_pg t) z h = λ e s. rw h refl
  protegida-Intocada fase false (prefixo_s3 p) z h = λ e s. rw h refl
  protegida-Intocada fase false (colecao_mongo c) z h = elim (Bool-cases c.retida) [
    | inl e ↦ λ _ s. rw e refl
    | inr e ↦
        let o : c.somente_exportar ≡ true = ground arith in rw o (λ k s. absurd (ground arith))
  ]

  protegidas-Intocadas :
      (fase : ℤ) (simular : Bool) (ds : List Declarada)
      → eq_ℤ (pos 0) fase ≡ false
      → All (λ d. protegida d ≡ true) ds
      → All (Intocada fase simular) (map fonte_de ds)
  protegidas-Intocadas fase simular [] z h = tt
  protegidas-Intocadas fase simular (d ∷ ds) z (h, hs) =
      (protegida-Intocada fase simular d z h, protegidas-Intocadas fase simular ds z hs)

  -- A purge of tables, collections and prefixes that are all retained or only exported leaves the store as it
  -- was, in every phase, and when it is no simulation too.
  pub expurgar-protegida :
      (nome : Texto) (ds : List Declarada) (fase : ℤ) (simular : Bool) (s : S)
      → All (λ d. protegida d ≡ true) ds
      → (expurgar (record { nome = nome; fontes = map fonte_de ds }) fase simular s).0 ≡ s
  unfolding expurgar
  expurgar-protegida nome ds fase simular s h = elim (Bool-cases (eq_ℤ (pos 0) fase)) [
    | inl z ↦ rw (← (eq_ℤ_iff (pos 0) fase).0 z) refl
    | inr z ↦ elim (Bool-cases (not (eq_ℤ fase (pos 1)) && not (eq_ℤ fase (pos 2)))) [
      | inl e ↦ rw e refl
      | inr e ↦ rw e (
          expurgar_fontes-intocado fase simular (map fonte_de ds) s _
            (protegidas-Intocadas fase simular ds z h))
    ]
  ]
