-- ===== src/StubRelay/Refines.antt =====
-- The stub stands for the relay (server/src/routes.rs): any sequence of the requests that both take.
use mathlib.Core.Path.{subst}
use parda.Base.{
  ◌≡◌, refl, sym, ap, ◌∙◌, Option, none, some, List, [], ◌∷◌, string_key, All, arith, inl, inr,
  Option-cases,
}
use parda.Server.Store.{RelayStore}
use parda.Server.Routes.{Response}
use parda.StubRelay.{StubState, StubResponse}
use parda.StubRelay.Requests.{Request, Addressed, stub_step, relay_step, Same, Simulates, Follows}
use parda.StubRelay.Steps.{step-Follows}

pub stub_run : List Request → StubState → List StubResponse × StubState
unfolding stub_step
stub_run [] s = ([], s)
stub_run (q ∷ qs) s =
    let (answer, s') = stub_step q s in
    let (answers, s'') = stub_run qs s' in (answer ∷ answers, s'')

abbrev after : Response → Option (List Response × RelayStore) → Option (List Response × RelayStore)
after answer none = none
after answer (some (answers, r)) = some (answer ∷ answers, r)

-- the relay up to a panic
unfoldable pub relay_run : List Request → RelayStore → Option (List Response × RelayStore)
unfolding relay_step
relay_run [] r = some ([], r)
relay_run (q ∷ qs) r = elim (relay_step q r) [
  | none ↦ none
  | some (answer, r') ↦ after answer (relay_run qs r')
]

after-step :
    (q : Request) (qs : List Request) (r : RelayStore) (answer : Response) (r₁ : RelayStore)
    → relay_step q r ≡ some (answer, r₁)
    → after answer (relay_run qs r₁) ≡ relay_run (q ∷ qs) r
unfolding relay_run
after-step q qs r answer r₁ stepped = rw (relay_run, stepped) refl

abbrev or_else : {A : Type 0} → A → Option A → A
or_else x none = x
or_else x (some y) = y

some_injective : {A : Type 0} {x y : A} → some x ≡ some y → x ≡ y
some_injective {x = x} h = ap (or_else x) h

abbrev pub SameAll : List StubResponse → List Response → Type 0
SameAll [] [] = Unit
SameAll (b ∷ bs) (a ∷ answers) = Same b a × SameAll bs answers
SameAll _ _ = ⊥

-- Where each submission names its envelope's recipient: to any requests that the relay answers all,
-- the stub with the same tables answers with the same codes and bundles, and with the same queues, of
-- which the relay's are in the order of the timestamps that the senders declare and the stub's in
-- that of submission; and its tables are the relay's again.
pub stub_run-relay_run :
    (qs : List Request) (s : StubState) (r r' : RelayStore) (answers : List Response)
    → All Addressed qs
    → Simulates s r
    → relay_run qs r ≡ some (answers, r')
    → SameAll (stub_run qs s).0 answers × Simulates (stub_run qs s).1 r'
unfolding stub_run relay_run
stub_run-relay_run [] s r r' answers a sim h =
    subst (λ p. SameAll [] p.0 × Simulates s p.1) (some_injective h) (tt, sim)
stub_run-relay_run (q ∷ qs) s r r' answers a sim h = elim (Option-cases (relay_step q r)) [
  | inl panics ↦ absurd (ground (arith, panics, h))
  | inr ((answer, r₁), stepped) ↦
      let (same, sim₁) : Follows (stub_step q s) (some (answer, r₁)) =
        subst (Follows (stub_step q s)) stepped (step-Follows q s r a.0 sim) in
      elim (Option-cases (relay_run qs r₁)) [
        | inl panics ↦ absurd (ground (arith, stepped, panics, h))
        | inr ((rest, r₂), ran) ↦
            let (sames, sim₂) = stub_run-relay_run qs (stub_step q s).1 r₁ r₂ rest a.1 sim₁ ran in
            let e : some (answer ∷ rest, r₂) ≡ some (answers, r') =
              ap (after answer) (sym ran) ∙ after-step q qs r answer r₁ stepped ∙ h in
            subst (λ p. SameAll (stub_run (q ∷ qs) s).0 p.0 × Simulates (stub_run (q ∷ qs) s).1 p.1)
              (some_injective e) ((same, sames), sim₂)
      ]
]
