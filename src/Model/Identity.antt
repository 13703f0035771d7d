-- ===== src/Model/Identity.antt =====
-- walrusos/core/models/agent_identity.py
use walrus_os.Base.{ℕ, String, ◌<>◌, Option, List, [], ◌∷◌}
use walrus_os.Model.Value.{Value, str}

pub record AgentReputation : Type 0 where
  pub successful_signatures : ℕ
  pub failed_verifications : ℕ
  pub memory_writes : ℕ
  pub artifact_uploads : ℕ
  pub validation_approvals : ℕ
  pub validation_failures : ℕ
  pub capability_grants : ℕ
  pub capability_revocations : ℕ

pub data AgentStatus : Type 0 where
  active paused terminated : AgentStatus

pub record AgentIdentity : Type 0 where
  pub agent_id : String
  pub workspace_id : String
  pub agent_name : String
  pub owner_wallet : String
  pub public_key : String
  pub trust_root : String
  pub created_at : String
  pub status : AgentStatus
  pub capabilities : List Value
  pub execution_counter : ℕ
  pub memory_counter : ℕ
  pub artifact_counter : ℕ
  pub reputation : AgentReputation
  pub metadata : Value
  pub sui_object_id : Option String

abbrev pub new_reputation : AgentReputation
new_reputation = record {
  successful_signatures = 0;
  failed_verifications = 0;
  memory_writes = 0;
  artifact_uploads = 0;
  validation_approvals = 0;
  validation_failures = 0;
  capability_grants = 0;
  capability_revocations = 0;
}

abbrev pub default_capabilities : List Value
default_capabilities = str "read" ∷ str "write" ∷ str "fork" ∷ str "merge" ∷ []

module _ (sha256 : String → String) where
  unfoldable pub compute_trust_root : String → String → String → String
  compute_trust_root wallet workspace name = sha256 (wallet <> ":" <> workspace <> ":" <> name)

  -- `roll_trust_root` changes the one field.
  unfoldable pub roll_trust_root : String → AgentIdentity → AgentIdentity
  roll_trust_root event_id a = record a { trust_root = sha256 (a.trust_root <> ":" <> event_id) }
