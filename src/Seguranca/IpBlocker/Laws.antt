-- ===== src/Seguranca/IpBlocker/Laws.antt =====
-- The blocker in memory: what one failure does to its address and to the others.
use deelp_pkg.Seguranca.IpBlocker.{
  IpBlocker, contagem, passou, registrar_falha, registrar_sucesso, esta_bloqueado,
}
use deelp_pkg.Prelude.{
  true, false, none, some, pos, inl, inr, refl, ℕ, Option, leb_ℤ, ◌≢◌, Bool, ◌+◌, ◌≡◌, Bool-cases,
  if◌then◌else◌, not, ◌∙◌, sym,
}
use deelp_pkg.Texto.{Texto}
use deelp_pkg.Mapa.{lookup}
use deelp_pkg.Mapa.Laws.{lookup-put_ne, lookup-put_self, lookup-remove_self, lookup-remove_ne}

-- The answer of `EstaBloqueado` from the entry of the address.
unfoldable pub bloqueado_por : ℕ → ℕ → Option ℕ → Bool
bloqueado_por depois duracao none = false
bloqueado_por depois duracao (some bt) = not (passou depois duracao bt)

module _ (dec : Discrete Texto) where
  pub esta_bloqueado-por :
      (depois : ℕ) (b : IpBlocker) (ip : Texto) (o : Option ℕ)
      → lookup dec ip b.bloqueios ≡ o
      → (esta_bloqueado dec depois b ip).1 ≡ bloqueado_por depois b.duracao_bloqueio o
  unfolding esta_bloqueado bloqueado_por
  esta_bloqueado-por depois b ip none h = rw (h, esta_bloqueado) refl
  esta_bloqueado-por depois b ip (some bt) h =
      rw (h, esta_bloqueado)
        (elim (Bool-cases (passou depois b.duracao_bloqueio bt)) [
          | inl e ↦ rw e refl
          | inr e ↦ rw e refl
        ])

  -- A failure that makes the number of failures of its address reach the limit blocks the address: it is
  -- blocked until the time of the block has passed since, and no longer.
  registrar_falha-bloqueia :
      (now depois : ℕ) (b : IpBlocker) (ip : Texto)
      → leb_ℤ b.max_tentativas (pos (contagem (lookup dec ip b.falhas) + 1)) ≡ true
      → (esta_bloqueado dec depois (registrar_falha dec now b ip) ip).1
        ≡ not (passou depois b.duracao_bloqueio now)
  unfolding registrar_falha bloqueado_por
  registrar_falha-bloqueia now depois b ip h =
      rw h (esta_bloqueado-por depois _ ip (some now) (lookup-put_self dec ip now b.bloqueios))

  -- A failure of one address changes neither the block nor the count of another.
  registrar_falha-outros :
      (now depois : ℕ) (b : IpBlocker) (ip q : Texto)
      → q ≢ ip
      → ((esta_bloqueado dec depois (registrar_falha dec now b ip) q).1
          ≡ (esta_bloqueado dec depois b q).1)
        × (lookup dec q (registrar_falha dec now b ip).falhas ≡ lookup dec q b.falhas)
  unfolding registrar_falha
  registrar_falha-outros now depois b ip q n =
      let f = lookup-put_ne dec ip q (contagem (lookup dec ip b.falhas) + 1) b.falhas n in
      let antes = esta_bloqueado-por depois b q (lookup dec q b.bloqueios) refl in
      elim (Bool-cases (leb_ℤ b.max_tentativas (pos (contagem (lookup dec ip b.falhas) + 1)))) [
        | inl e ↦ rw e (
          esta_bloqueado-por depois _ q (lookup dec q b.bloqueios)
                (lookup-put_ne dec ip q now b.bloqueios n)
              ∙ sym antes,
          lookup-remove_ne dec ip q _ n ∙ f,
        )
        | inr e ↦
            rw e (esta_bloqueado-por depois _ q (lookup dec q b.bloqueios) refl ∙ sym antes, f)
      ]

  -- After `RegistrarSucesso` the failures of the address are counted from zero: the next one blocks it only
  -- if the limit is at most one, and is the first otherwise.
  registrar_sucesso-zera :
      (now : ℕ) (b : IpBlocker) (ip : Texto)
      → lookup dec ip (registrar_falha dec now (registrar_sucesso dec b ip) ip).falhas
        ≡ (if leb_ℤ b.max_tentativas (pos 1) then none else some 1)
  unfolding registrar_falha registrar_sucesso
  registrar_sucesso-zera now b ip =
      rw (lookup-remove_self dec ip b.falhas) (elim (Bool-cases (leb_ℤ b.max_tentativas (pos 1))) [
        | inl e ↦ rw e (lookup-remove_self dec ip _)
        | inr e ↦ rw e (lookup-put_self dec ip 1 _)
      ])
