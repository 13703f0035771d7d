-- ===== src/Runtime/Registry.antt =====
-- walrusos/runtime/registry.py: `AgentRegistry`, agents by id.
use walrus_os.Base.{ℕ, String, Bool, Option, List, ◌==◌, any_of, keep_if}
use walrus_os.Base.Dict.{Dict, lookup, insert, pop, values}

pub record Capability : Type 0 where
  pub name : String
  pub languages : List String
  pub description : String

pub record Registration : Type 0 where
  pub agent_id : String
  pub agent_name : String
  pub framework : String
  pub workspace_id : String
  pub capabilities : List Capability
  pub tools_exposed : List String
  pub max_concurrent_tasks : ℕ

-- The dict `_agents`
abbrev pub Registry : Type 0
Registry = Dict Registration

unfoldable pub register : Registration → Registry → Registry
register r agents = insert r.agent_id r agents

unfoldable pub unregister : String → Registry → Registry
unregister agent_id agents = pop agent_id agents

abbrev pub has_capability : String → Registration → Bool
has_capability name r = any_of (λ c. c.name == name) r.capabilities

unfoldable pub find_by_capability : String → Registry → List Registration
find_by_capability name agents = keep_if (has_capability name) (values agents)

unfoldable pub find_by_framework : String → Registry → List Registration
find_by_framework framework agents = keep_if (λ r. r.framework == framework) (values agents)

unfoldable pub list_all : Registry → List Registration
list_all agents = values agents

unfoldable pub get_agent : String → Registry → Option Registration
get_agent agent_id agents = lookup agent_id agents
