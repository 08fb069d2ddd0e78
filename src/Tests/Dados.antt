-- ===== src/Tests/Dados.antt =====
-- The data of a tenant at concrete services; the store is a number.
use deelp_pkg.Tests.{leitura_teste}
use deelp_pkg.Texto.{Texto, codes, vazio}
use deelp_pkg.Internalauth.{Verificador}
use deelp_pkg.Tenantdados.{Contagem, Fonte, Servico, expurgar}
use deelp_pkg.Tenantdados.Parada.{Termina, expurgar-Termina}
use deelp_pkg.Tenantdados.Exportacao.{exportar}
use deelp_pkg.Tenantdados.Exportacao.Laws.{Exportado, exportar-Exportado}
use deelp_pkg.Tenantdados.Transporte.{Chamada, Resposta, de_outro, envolver}
use deelp_pkg.Tenantdados.Transporte.Laws.{Guardada, envolver-Guardada}
use deelp_pkg.Tenantdados.Csv.{Valor, montar_csv, bom_utf8, utf8}
use deelp_pkg.Tenantdados.Csv.RoundTrip.{inicio, ler, celulas, montar_csv-ler}
use deelp_pkg.Tenantdados.Postgres.{BancoPg, TabelaPg, erro_pg, dado, outro_erro}
use deelp_pkg.Tenantdados.Mongo.{BancoMongo}
use deelp_pkg.Tenantdados.S3.{Armazenamento}
use deelp_pkg.Tenantdados.Retencao.{Declarada, tabela_pg, fonte_de, expurgar-protegida}
use deelp_pkg.Prelude.{
  [], ◌∷◌, none, some, true, false, pos, refl, List, Option, ℕ, ◌≡◌, map, ◌++◌, ◌+◌, ◌⊎◌, arith,
}

abbrev contagem_teste : Contagem
contagem_teste = record { fonte = codes "f"; quantidade = 2; retido = false; motivo = [] }

-- A source of phase one that empties the store, and one that fails.
abbrev fonte_teste : Fonte ℕ
fonte_teste = record {
  nome = codes "f";
  fase = pos 1;
  exportar = λ s. some (record { nome = codes "b"; conteudo = [] } ∷ []);
  contar = λ s. some contagem_teste;
  apagar = λ s. (0, some contagem_teste);
}

abbrev fonte_falha : Fonte ℕ
fonte_falha = record fonte_teste {
  exportar = λ s. some (record { nome = codes "a"; conteudo = [] } ∷ []);
  apagar = λ s. (s + 1, none);
}

abbrev servico_teste : Servico ℕ
servico_teste = record { nome = codes "s"; fontes = fonte_teste ∷ fonte_falha ∷ fonte_teste ∷ [] }

expurgar-Termina_example :
    Termina false servico_teste (pos 1) 5 (expurgar servico_teste (pos 1) false 5)
expurgar-Termina_example = expurgar-Termina false servico_teste (pos 1) 5

exportar-Exportado_example : Exportado servico_teste.fontes 5 (exportar servico_teste 5)
exportar-Exportado_example = exportar-Exportado servico_teste 5

-- A deletion of phase one, with the internal key.
abbrev chamada_teste : Chamada
chamada_teste = record {
  pedido = record leitura_teste { method = codes "POST"; path = codes "/s/interno/tenant/expurgo" };
  consulta = λ nome. codes "1";
}

abbrev verificador_teste : Option Verificador
verificador_teste = some (record { chave = codes "t" })

abbrev proximo_teste : ℕ → Chamada → ℕ × Resposta
proximo_teste s c = (s, de_outro 404)

abbrev uuid_teste : Texto → Option Texto
uuid_teste t = some t

abbrev atendida : ℕ × Resposta
atendida =
    envolver uuid_teste vazio (λ id. servico_teste) (codes "/s") verificador_teste proximo_teste 5
      chamada_teste

envolver-Guardada_example :
    (atendida ≡ proximo_teste 5 chamada_teste)
    ⊎ Guardada uuid_teste vazio (λ id. servico_teste) verificador_teste 5 chamada_teste atendida
envolver-Guardada_example =
    envolver-Guardada uuid_teste vazio (λ id. servico_teste) (codes "/s") verificador_teste
      proximo_teste 5 chamada_teste

-- One column, and a value with the separator and a quote.
abbrev linhas_teste : List (List Valor)
linhas_teste = (Valor.texto (codes "x;\"y") ∷ []) ∷ []

montar_csv-ler_example :
    (t : Texto) × (montar_csv (codes "a" ∷ []) linhas_teste ≡ some (bom_utf8 ++ utf8 t))
    × (ler t inicio ≡ (codes "a" ∷ []) ∷ map (celulas (codes "a" ∷ [])) linhas_teste)
montar_csv-ler_example = montar_csv-ler (codes "a") [] linhas_teste (omega arith, tt)

abbrev pg_teste : BancoPg ℕ
pg_teste = record {
  consultar = λ s c. erro_pg outro_erro;
  contar_linhas = λ s c. dado s;
  executar = λ s c. (0, dado s);
}

abbrev mongo_teste : BancoMongo ℕ
mongo_teste = record {
  buscar = λ s c. none;
  contar_documentos = λ s c. some s;
  excluir_documentos = λ s c. (0, some s);
}

abbrev s3_teste : Armazenamento ℕ
s3_teste = record {
  listar_prefixo = λ s p. some [];
  download = λ s k. none;
  excluir = λ s k. (0, true);
}

abbrev tabela_teste : TabelaPg
tabela_teste = record {
  tabela = codes "notas";
  filtro = codes "empresa_id = $1";
  fase_expurgo = pos 1;
  retida = true;
  motivo_retencao = codes "fiscal";
  anonimizar = [];
  colunas = [];
  nao_exportar = false;
  opcional = false;
}

abbrev declaradas_teste : List Declarada
declaradas_teste = tabela_pg tabela_teste ∷ []

abbrev servico_retido : Servico ℕ
servico_retido = record {
  nome = codes "s";
  fontes = map (fonte_de pg_teste mongo_teste uuid_teste s3_teste) declaradas_teste;
}

expurgar-protegida_example : (expurgar servico_retido (pos 1) false 5).0 ≡ 5
expurgar-protegida_example =
    expurgar-protegida pg_teste mongo_teste uuid_teste s3_teste (codes "s") declaradas_teste (pos 1)
      false 5 (refl, tt)
