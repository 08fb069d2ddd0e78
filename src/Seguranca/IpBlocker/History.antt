-- ===== src/Seguranca/IpBlocker/History.antt =====
-- Every answer of the blocker in memory against a reference that forgets nothing.
use deelp_pkg.Seguranca.IpBlocker.{
  IpBlocker, new_ip_blocker, registrar_falha, registrar_sucesso, esta_bloqueado, ip_cleanup,
}
use deelp_pkg.Seguranca.IpBlocker.Laws.{bloqueado_por, esta_bloqueado-por}
use deelp_pkg.Texto.{Texto}
use deelp_pkg.Mapa.{Mapa, lookup, remove}
use deelp_pkg.Prelude.{ℕ, [], ◌∷◌, none, List, ℤ, ◌≡◌, ◌≤◌, arith, refl, ◌∙◌}
use mathlib.Core.Logic.{ite}
use deelp_pkg.Seguranca.IpBlocker.Registro.{
  RegistroIp, com_mapas, falhou, zerado, Inv, falha-Inv, sucesso-Inv, consulta-Inv, limpeza-Inv,
  Inv-later,
}

-- What is asked of a blocker: a failure or a success of an address, whether it is blocked, or a round of the sweep.
pub data PedidoIp : Type 0 where
  falha sucesso consulta : Texto → PedidoIp
  limpeza : PedidoIp

-- The calls stand with the latest first, none later than `now`.
abbrev pub IsOrdered : ℕ → List (ℕ × PedidoIp) → Type 0
IsOrdered now [] = Unit
IsOrdered now ((t, p) ∷ ps) = (t ≤ now) × IsOrdered t ps

module _ (dec : Discrete Texto) (max : ℤ) (duracao : ℕ) where
  abbrev pub atender : ℕ → PedidoIp → IpBlocker → IpBlocker
  atender t (falha ip) b = registrar_falha dec t b ip
  atender t (sucesso ip) b = registrar_sucesso dec b ip
  atender t (consulta ip) b = (esta_bloqueado dec t b ip).0
  atender t limpeza b = ip_cleanup t b

  -- The blocker after the calls.
  pub depois_de : List (ℕ × PedidoIp) → IpBlocker
  depois_de [] = new_ip_blocker max duracao
  depois_de ((t, p) ∷ ps) = atender t p (depois_de ps)

  -- The reference of an address, from its own calls.
  pub registro : Texto → List (ℕ × PedidoIp) → RegistroIp
  registro q [] = record { falhas = 0; bloqueio = none }
  registro q ((t, falha ip) ∷ ps) =
      let antes = registro q ps in ite (dec ip q) (falhou dec max duracao t antes) antes
  registro q ((t, sucesso ip) ∷ ps) =
      let antes = registro q ps in ite (dec ip q) (zerado dec max duracao antes) antes
  registro q ((t, consulta ip) ∷ ps) = registro q ps
  registro q ((t, limpeza) ∷ ps) = registro q ps

  -- A blocker that follows the reference at an instant.
  abbrev Seguido : ℕ → IpBlocker → (Texto → RegistroIp) → Type 0
  Seguido now b ref =
      (bl : Mapa Texto ℕ) × (fl : Mapa Texto ℕ) × (b ≡ com_mapas dec max duracao bl fl)
      × Inv dec max duracao now bl fl ref

  depois_de-Seguido :
      (now : ℕ) (ps : List (ℕ × PedidoIp))
      → IsOrdered now ps
      → Seguido now (depois_de ps) (λ q. registro q ps)
  unfolding depois_de registro new_ip_blocker bloqueado_por lookup registrar_sucesso ip_cleanup
  depois_de-Seguido now [] o = ([], [], refl, (tt, λ q. (refl, λ n l. refl)))
  depois_de-Seguido now ((t, falha ip) ∷ ps) (l, o) =
      let (bl, fl, e, i) = depois_de-Seguido t ps o in
      let (bl', fl', e', i') = falha-Inv dec max duracao t bl fl (λ q. registro q ps) ip i in
      (bl', fl', rw e e', Inv-later dec max duracao t now bl' fl' _ l i')
  depois_de-Seguido now ((t, sucesso ip) ∷ ps) (l, o) =
      let (bl, fl, e, i) = depois_de-Seguido t ps o in
      (
        bl,
        remove dec ip fl,
        rw e refl,
        Inv-later dec max duracao t now bl _ _ l (sucesso-Inv dec max duracao t bl fl _ ip i),
      )
  depois_de-Seguido now ((t, consulta ip) ∷ ps) (l, o) =
      let (bl, fl, e, i) = depois_de-Seguido t ps o in
      let (bl', e', i') = consulta-Inv dec max duracao t bl fl (λ q. registro q ps) ip i in
      (bl', fl, rw e e', Inv-later dec max duracao t now bl' fl _ l i')
  depois_de-Seguido now ((t, limpeza) ∷ ps) (l, o) =
      let (bl, fl, e, i) = depois_de-Seguido t ps o in
      (
        _,
        fl,
        rw e refl,
        Inv-later dec max duracao t now _ fl _ l (limpeza-Inv dec max duracao t bl fl _ i),
      )

  -- After any calls in the order of their instants, sweeps among them, an address is blocked exactly if it has
  -- been blocked and its last block is no older than the time of a block. The reference counts the failures of
  -- the address alone, since its last success or block, and forgets no block.
  pub esta_bloqueado-registro :
      (now : ℕ) (ip : Texto) (ps : List (ℕ × PedidoIp))
      → IsOrdered now ps
      → (esta_bloqueado dec now (depois_de ps) ip).1
        ≡ bloqueado_por now duracao (registro ip ps).bloqueio
  esta_bloqueado-registro now ip ps o =
      let (bl, fl, e, (u, i)) = depois_de-Seguido now ps o in
      rw e (
        esta_bloqueado-por dec now (com_mapas dec max duracao bl fl) ip (lookup dec ip bl) refl
        ∙ (i ip).1 now (omega arith))
