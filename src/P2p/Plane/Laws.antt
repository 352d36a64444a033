-- ===== src/P2p/Plane/Laws.antt =====
-- The one host of a single bootstrap, and the data plane that can be chosen.
use mathlib.Core.Path.{subst}
use agent_feed.P2p.Plane.{bootstrap_host_from, dns4_host, single_bootstrap_host}
use agent_feed.P2p.Types.{org_eq, role_eq, team_eq}
use agent_feed.Prelude.{
  ==_iff, ==_refl, All, Bool-cases, List, Option-cases, [], arith, false, inl, inr, is_empty,
  list_eq, nat_eq, option_eq, pair_eq, refl, some, some_injective, ◌==◌, ◌↔◌, ◌∙◌, ◌∷◌, ◌≡◌,
}
use agent_feed.Text.{Str}

abbrev Hosts : Str → List Str → Type 0
Hosts host peers = All (λ peer. dns4_host peer ≡ some host) peers

bootstrap_host_from_iff :
    (host : Str) (peers : List Str)
    → (bootstrap_host_from (some host) peers ≡ some host) ↔ Hosts host peers
unfolding bootstrap_host_from
bootstrap_host_from_iff host [] = (λ e. tt, λ hold. refl)
bootstrap_host_from_iff host (peer ∷ peers) = elim (Option-cases (dns4_host peer)) [
  | inl absent ↦ (λ e. cc, λ hold. cc)
  | inr (candidate, found) ↦ elim (Bool-cases (host == candidate)) [
    | inl same ↦
        let name : host ≡ candidate = (==_iff host candidate).0 same in
        let rest = bootstrap_host_from_iff host peers in
        subst
          (λ c.
            dns4_host peer ≡ some c
            → (bootstrap_host_from (some host) (peer ∷ peers) ≡ some host)
              ↔ Hosts host (peer ∷ peers))
          name (λ there. (λ e. (there, rest.0 (ground arith)), λ hold. ground arith)) found
    | inr apart ↦ (λ e. ground arith, λ hold. ground (arith, ==_refl host))
  ]
]

-- The host that the loop began with is the one it ends with.
bootstrap_host_from-eq :
    (host end : Str) (peers : List Str)
    → bootstrap_host_from (some host) peers ≡ some end
    → host ≡ end
unfolding bootstrap_host_from
bootstrap_host_from-eq host end [] e = some_injective e
bootstrap_host_from-eq host end (peer ∷ peers) e = elim (Option-cases (dns4_host peer)) [
  | inl absent ↦ cc
  | inr (candidate, found) ↦ elim (Bool-cases (host == candidate)) [
    | inl same ↦
        let name : host ≡ candidate = (==_iff host candidate).0 same in
        name ∙ bootstrap_host_from-eq candidate end peers (ground arith)
    | inr apart ↦ absurd (ground arith)
  ]
]

pub single_bootstrap_host_iff :
    (host : Str) (peers : List Str)
    → (single_bootstrap_host peers ≡ some host)
      ↔ (is_empty peers ≡ false) × All (λ peer. dns4_host peer ≡ some host) peers
unfolding single_bootstrap_host bootstrap_host_from
single_bootstrap_host_iff host [] = (λ e. cc, λ (e, hold). cc)
single_bootstrap_host_iff host (peer ∷ peers) = elim (Option-cases (dns4_host peer)) [
  | inl absent ↦ (λ e. cc, λ (e, hold). cc)
  | inr (candidate, found) ↦ (
    λ e.
        let rest : bootstrap_host_from (some candidate) peers ≡ some host = ground arith in
        let name = bootstrap_host_from-eq candidate host peers rest in
        (refl, (cc (found, name), (bootstrap_host_from_iff host peers).0 (cc (rest, name)))),
    λ (e, (there, hold)).
        let name : candidate ≡ host = some_injective (cc (found, there)) in
        let rest = (bootstrap_host_from_iff host peers).1 hold in rw there rest,
  )
]
