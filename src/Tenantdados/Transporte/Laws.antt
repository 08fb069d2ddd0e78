-- ===== src/Tenantdados/Transporte/Laws.antt =====
-- Who may change or read the data of a tenant over the internal routes.
use deelp_pkg.Texto.Inteiro.{atoi}
use deelp_pkg.Texto.{Texto, codes, eq_texto}
use deelp_pkg.Http.{is_method}
use deelp_pkg.Internalauth.{Verificador, valida}
use deelp_pkg.Tenantdados.{
  Arquivo, Servico, Expurgo, expurgar, fase_invalida, interrompido, completo,
}
use deelp_pkg.Tenantdados.Exportacao.{exportar}
use deelp_pkg.Tenantdados.Laws.{expurgar-simulado}
use deelp_pkg.Tenantdados.Transporte.{
  Chamada, Resposta, Empresa, negada, da_empresa, recusada, zip, falhou, empresa_da_chamada,
  exportar_de, handler_exportacao, relatada, simular_de, expurgar_de, handler_expurgo, envolver,
  caminho_exportacao, caminho_expurgo, relatado, zipada, relato_de_erro, de_outro,
}
use deelp_pkg.Prelude.{
  true, false, some, inl, inr, refl, Option, Bool, Bool-cases, ◌≡◌, arith, ◌⊎◌, Option-cases,
  none_ne_some, ap, some_inj, List, sym, ◌∙◌, none, ◌&&◌, ◌++◌,
}
use deelp_pkg.Texto.Laws.{eq_texto→eq}

module _ {Uuid : Type 0} (parse : Texto → Option Uuid) (eh_nil : Uuid → Bool) where
  -- The call has the key of the verifier and names a company.
  abbrev pub IsAutorizada : Option Verificador → Chamada → Uuid → Type 0
  IsAutorizada v c id =
      (valida v (some c.pedido) ≡ true)
      × (parse (c.pedido.header "X-Empresa-Id") ≡ some id)
      × (eh_nil id ≡ false)

  abbrev pub Identifica : Option Verificador → Chamada → Empresa Uuid → Type 0
  Identifica v c (negada status texto) = (id : Uuid) → ¬ IsAutorizada v c id
  Identifica v c (da_empresa id) = IsAutorizada v c id

  empresa_da_chamada-Identifica :
      (v : Option Verificador) (c : Chamada) → Identifica v c (empresa_da_chamada parse eh_nil v c)
  unfolding empresa_da_chamada
  empresa_da_chamada-Identifica v c = elim (Bool-cases (valida v (some c.pedido))) [
    | inr a ↦ rw a (λ id (h, _, _). ground arith)
    | inl a ↦ elim (Option-cases (parse (c.pedido.header "X-Empresa-Id"))) [
      | inl b ↦ rw (a, b) (λ id (_, h, _). none_ne_some (sym b ∙ h))
      | inr (id, b) ↦ elim (Bool-cases (eh_nil id)) [
        | inl d ↦ rw (a, b, d) (λ j (_, h, k). ground (arith, ap eh_nil (some_inj (sym b ∙ h))))
        | inr d ↦ rw (a, b, d) (a, b, d)
      ]
    ]
  ]

  module _ {S : Type 0} (servico : Uuid → Servico S) where
    -- A deletion: authorised for the company and asked for by `simular=false`, with what the purge leaves.
    abbrev pub Apagada : Option Verificador → S → Chamada → S → Type 0
    Apagada v s c t =
        (id : Uuid) × IsAutorizada v c id
        × (c.consulta "simular" ≡ codes "false")
        × (t ≡ (expurgar (servico id) (atoi (c.consulta "fase")).valor false s).0)

    -- Files are given away to a call that is authorised for the company, and are its export.
    abbrev pub Entrega : Option Verificador → S → Chamada → Resposta → Type 0
    Entrega v s c (zip as_) =
        (id : Uuid) × IsAutorizada v c id × (exportar (servico id) s ≡ some as_)
    Entrega v s c (recusada status texto) = Unit
    Entrega v s c (falhou status) = Unit
    Entrega v s c (relatado r) = Unit
    Entrega v s c (relato_de_erro status r) = Unit
    Entrega v s c (de_outro status) = Unit

    abbrev pub Guardada : Option Verificador → S → Chamada → S × Resposta → Type 0
    Guardada v s c (t, r) = ((t ≡ s) ⊎ Apagada v s c t) × Entrega v s c r

    zipada-Entrega :
        (v : Option Verificador) (s : S) (c : Chamada) (id : Uuid) (o : Option (List Arquivo))
        → IsAutorizada v c id
        → exportar (servico id) s ≡ o
        → Entrega v s c (zipada o)
    zipada-Entrega v s c id none h e = tt
    zipada-Entrega v s c id (some as_) h e = (id, h, e)

    handler_exportacao-Guardada :
        (v : Option Verificador) (s : S) (c : Chamada) (e : Empresa Uuid)
        → Identifica v c e
        → Guardada v s c (s, exportar_de parse eh_nil servico s e)
    handler_exportacao-Guardada v s c (negada status texto) h = (inl refl, tt)
    handler_exportacao-Guardada v s c (da_empresa id) h =
        (inl refl, zipada-Entrega v s c id (exportar (servico id) s) h refl)

    relatada-Guardada :
        (v : Option Verificador) (s : S) (c : Chamada) (x : S × Expurgo)
        → (x.0 ≡ s) ⊎ Apagada v s c x.0
        → Guardada v s c (relatada x)
    relatada-Guardada v s c (t, fase_invalida) h = (h, tt)
    relatada-Guardada v s c (t, interrompido r nome) h = (h, tt)
    relatada-Guardada v s c (t, completo r) h = (h, tt)

    expurgar-Apagada :
        (v : Option Verificador) (s : S) (c : Chamada) (id : Uuid)
        → IsAutorizada v c id
        → let x = (expurgar (servico id) (atoi (c.consulta "fase")).valor (simular_de c) s).0 in
          (x ≡ s) ⊎ Apagada v s c x
    expurgar-Apagada v s c id h =
        elim (Bool-cases (eq_texto (c.consulta "simular") (codes "false"))) [
          | inl e ↦ rw e (inr (id, h, eq_texto→eq (c.consulta "simular") (codes "false") e, refl))
          | inr e ↦ rw e (inl (expurgar-simulado (servico id) (atoi (c.consulta "fase")).valor s))
        ]

    expurgar_de-Guardada :
        (v : Option Verificador) (s : S) (c : Chamada) (e : Empresa Uuid)
        → Identifica v c e
        → Guardada v s c (expurgar_de parse eh_nil servico s c e)
    expurgar_de-Guardada v s c (negada status texto) h = (inl refl, tt)
    expurgar_de-Guardada v s c (da_empresa id) h =
        relatada-Guardada v s c
          (expurgar (servico id) (atoi (c.consulta "fase")).valor (simular_de c) s)
          (expurgar-Apagada v s c id h)

    -- Round a service, a call is either the next handler's, which is given it unchanged; or the store is left
    -- as it was, unless the call has the internal key, names a company and says `simular=false`, and then it
    -- is what the purge of that company leaves; and files are the export of the company of such a call.
    pub envolver-Guardada :
        (prefixo : Texto) (v : Option Verificador) (proximo : S → Chamada → S × Resposta) (s : S)
        (c : Chamada)
        → let x = envolver parse eh_nil servico prefixo v proximo s c in
          (x ≡ proximo s c) ⊎ Guardada v s c x
    unfolding envolver handler_exportacao handler_expurgo
    envolver-Guardada prefixo v proximo s c =
        let e = empresa_da_chamada parse eh_nil v c in
        let h = empresa_da_chamada-Identifica v c in
        elim (Bool-cases
          (is_method c.pedido "GET" && eq_texto c.pedido.path (prefixo ++ caminho_exportacao))) [
            | inl a ↦ rw a (inr (handler_exportacao-Guardada v s c e h))
            | inr a ↦
                elim (Bool-cases (
                  is_method c.pedido "POST"
                  && eq_texto c.pedido.path (prefixo ++ caminho_expurgo))) [
                    | inl b ↦ rw (a, b) (inr (expurgar_de-Guardada v s c e h))
                    | inr b ↦ rw (a, b) (inl refl)
                  ]
          ]
