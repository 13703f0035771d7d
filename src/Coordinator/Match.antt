-- ===== src/Coordinator/Match.antt =====
-- `Coordinator.match_agent`: who is chosen for a task.
use walrus_os.Base.{
  String, ◌≡◌, refl, Bool, true, false, ◌&&◌, Option, none, some, List, [], ◌∷◌, arith, any_of,
  keep_if, Bool-cases, inl, inr,
}
use walrus_os.Base.Dict.{values}
use walrus_os.Runtime.Registry.{
  Registration, Registry, find_by_capability, has_capability, list_all,
}
use walrus_os.Coordinator.{Task, Agent, agent_of, is_online, choose, match_agent}

-- Some agent of the list is online and has the capability.
abbrev pub fits : String → List Agent → Registration → Bool
fits capability agents r = has_capability capability r && is_online agents r

-- The agent is that of a registration of the list that fits.
pub data Fitting (capability : String) (agents : List Agent)
    : List Registration → Agent → Type 0 where
  here :
      (r : Registration) (rs : List Registration)
      → fits capability agents r ≡ true
      → Fitting capability agents (r ∷ rs) (agent_of r)
  there :
      (r : Registration) (rs : List Registration) (a : Agent)
      → Fitting capability agents rs a
      → Fitting capability agents (r ∷ rs) a

module _ (capability : String) (agents : List Agent) where
  abbrev pub found : List Registration → List Registration
  found rs = keep_if (is_online agents) (keep_if (has_capability capability) rs)

  choose-Fitting :
      (rs : List Registration)
      → any_of (fits capability agents) rs ≡ true
      → (a : Agent) × (choose (found rs) agents ≡ some a) × Fitting capability agents rs a
  choose-Fitting [] h = cc
  choose-Fitting (r ∷ rs) h = elim (Bool-cases (has_capability capability r)) [
    | inl p ↦ elim (Bool-cases (is_online agents r)) [
      | inl q ↦ (agent_of r, rw (p, q) refl, here r rs (rw (p, q) refl))
      | inr q ↦ let (a, e, f) = choose-Fitting rs (ground arith) in (a, rw (p, q) e, there r rs a f)
    ]
    | inr p ↦ let (a, e, f) = choose-Fitting rs (ground arith) in (a, rw p e, there r rs a f)
  ]

  found-none : (rs : List Registration) → any_of (fits capability agents) rs ≡ false → found rs ≡ []
  found-none [] h = refl
  found-none (r ∷ rs) h = elim (Bool-cases (has_capability capability r)) [
    | inl p ↦ rw p (ground (arith, found-none rs))
    | inr p ↦ rw p (found-none rs (ground arith))
  ]

abbrev pub first_agent : List Agent → Option Agent
first_agent [] = none
first_agent (a ∷ agents) = some a

choose-first : (agents : List Agent) → choose [] agents ≡ first_agent agents
choose-first [] = refl
choose-first (a ∷ agents) = refl

-- If a registered agent is online and has the capability that a task requires, the agent chosen is
-- one of these; if not, it is the first agent that is online, and none only if no agent is.
pub match_agent_lem :
    (t : Task) (registry : Registry) (agents : List Agent)
    → (any_of (fits t.required_capability agents) (list_all registry) ≡ true
        → (a : Agent) × (match_agent t registry agents ≡ some a)
          × Fitting t.required_capability agents (list_all registry) a)
      × (any_of (fits t.required_capability agents) (list_all registry) ≡ false
          → match_agent t registry agents ≡ first_agent agents)
unfolding match_agent find_by_capability list_all
match_agent_lem t registry agents = (
  choose-Fitting t.required_capability agents (values registry),
  λ h.
      rw (match_agent, found-none t.required_capability agents (values registry) h)
        (choose-first agents),
)
