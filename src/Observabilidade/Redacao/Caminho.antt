-- ===== src/Observabilidade/Redacao/Caminho.antt =====
-- What a path keeps when it is made safe.
use deelp_pkg.Texto.{Texto, Unicode, codes, split, join}
use deelp_pkg.Texto.Laws.{SemSeparador, split-cons, split-SemSeparador, split-join}
use deelp_pkg.Observabilidade.Redacao.{Letras, segmento_sensivel, trocar_segmento, sanitizar_path}
use deelp_pkg.Prelude.{false, ◌≡◌, inl, inr, refl, List, Bool-cases, map, [], ◌∷◌, All}
use mathlib.Core.Path.{subst}

module _ (u : Unicode) (l : Letras) where
  id_nao_sensivel : segmento_sensivel u l (codes ":id") ≡ false
  unfolding segmento_sensivel deelp_pkg.Observabilidade.Redacao.segmento_telefone
      deelp_pkg.Observabilidade.Redacao.segmento_numerico
      deelp_pkg.Observabilidade.Redacao.segmento_cpf_cnpj
      deelp_pkg.Observabilidade.Redacao.texto_jwt deelp_pkg.Auth.Tenant.parece_uuid
      deelp_pkg.Texto.contains deelp_pkg.Texto.byte_len deelp_pkg.Texto.eq_texto
  id_nao_sensivel = refl

  trocar-nao_sensivel : (s : Texto) → segmento_sensivel u l (trocar_segmento u l s) ≡ false
  trocar-nao_sensivel s = elim (Bool-cases (segmento_sensivel u l s)) [
    | inl e ↦ rw e id_nao_sensivel
    | inr e ↦ rw (e, e) refl
  ]

  trocar-trocar : (s : Texto) → trocar_segmento u l (trocar_segmento u l s) ≡ trocar_segmento u l s
  trocar-trocar s = rw (trocar-nao_sensivel s) refl

  trocar-SemSeparador :
      (s : Texto) → SemSeparador b'/' s → SemSeparador b'/' (trocar_segmento u l s)
  trocar-SemSeparador s h = elim (Bool-cases (segmento_sensivel u l s)) [
    | inl e ↦ rw e refl
    | inr e ↦ rw e h
  ]

  All-trocar :
      (ps : List Texto)
      → All (SemSeparador b'/') ps
      → All (SemSeparador b'/') (map (trocar_segmento u l) ps)
  All-trocar [] h = tt
  All-trocar (p ∷ ps) (h, hs) = (trocar-SemSeparador p h, All-trocar ps hs)

  segmentos-sanitizar_path :
      (p : Texto) → split b'/' (sanitizar_path u l p) ≡ map (trocar_segmento u l) (split b'/' p)
  unfolding sanitizar_path
  segmentos-sanitizar_path p =
      let (q, qs, e) = split-cons b'/' p in
      let h : All (SemSeparador b'/') (q ∷ qs) =
        subst (λ x. All (SemSeparador b'/') x) e (split-SemSeparador b'/' p) in
      rw e (
        split-join b'/' (trocar_segmento u l q) (map (trocar_segmento u l) qs)
          (All-trocar (q ∷ qs) h))

  nao_sensiveis :
      (ps : List Texto) → All (λ s. segmento_sensivel u l s ≡ false) (map (trocar_segmento u l) ps)
  nao_sensiveis [] = tt
  nao_sensiveis (p ∷ ps) = (trocar-nao_sensivel p, nao_sensiveis ps)

  map-trocar :
      (ps : List Texto)
      → map (trocar_segmento u l) (map (trocar_segmento u l) ps) ≡ map (trocar_segmento u l) ps
  map-trocar [] = refl
  map-trocar (p ∷ ps) = rw (trocar-trocar p, map-trocar ps) refl

  -- A path made safe has as many segments as before, the sensitive ones replaced by `:id` and the others as
  -- they were; no segment of it is sensitive, and making it safe again changes nothing.
  pub sanitizar_path-segmentos :
      (p : Texto)
      → (split b'/' (sanitizar_path u l p) ≡ map (trocar_segmento u l) (split b'/' p))
        × All (λ s. segmento_sensivel u l s ≡ false) (split b'/' (sanitizar_path u l p))
        × (sanitizar_path u l (sanitizar_path u l p) ≡ sanitizar_path u l p)
  unfolding sanitizar_path
  sanitizar_path-segmentos p = (
    segmentos-sanitizar_path p,
    rw (segmentos-sanitizar_path p) (nao_sensiveis (split b'/' p)),
    rw (segmentos-sanitizar_path p, map-trocar (split b'/' p)) refl,
  )
