-- ===== src/TimeTravel/Sealed.antt =====
-- What `fork_stream` and `merge_streams` do with a key and without one.
use walrus_os.Base.{String, ◌≡◌, ◌≢◌, some, List, arith, eq_iff, inl, inr, Option-cases, length}
use walrus_os.Base.Result.{ok, Result-cases}
use walrus_os.Model.Value.{Payload}
use walrus_os.Model.Event.{ProtocolEvent, memory_forked}
use walrus_os.Model.Crypto.{Primitives, canonicalize_payload, hash_payload}
use walrus_os.Adapters.Ledger.{Ledger, StoredEvent}
use walrus_os.TimeTravel.{
  find_lca, Clock, seal, sign_with, fork_stream, merge_streams, fork_payload, merge_payload,
  branch_event,
}

module _ (c : Primitives) where
  seal_fails :
      (key k : String) (p : Payload) (r : String × String)
      → key ≢ ""
      → c.from_hex key ≡ some k
      → k ≢ ""
      → seal c key p ≢ ok r
  unfolding seal sign_with canonicalize_payload hash_payload
  seal_fails key k p r ne hex full h = elim (Option-cases (c.canonical_json p)) [
    | inl n ↦ ground arith
    | inr (bytes, q) ↦ elim (Option-cases (c.sign k (c.sha256 bytes))) [
      | inl n ↦ ground (arith, eq_iff key "", eq_iff k "")
      | inr (s, m) ↦ ground (arith, eq_iff key "", eq_iff k "")
    ]
  ]

  -- With a private key of at least one byte neither a fork nor a merge of time travel ever returns.
  pub signed_never_returns :
      (clock clock' : Clock) (agent_id wallet a b key k new now : String) (l : Ledger)
      (r : String × Ledger)
      → key ≢ ""
      → c.from_hex key ≡ some k
      → k ≢ ""
      → (fork_stream c clock agent_id wallet a b key new now l ≢ ok r)
        × (merge_streams c clock clock' agent_id wallet a b key now l ≢ ok r)
  unfolding fork_stream merge_streams
  signed_never_returns clock clock' agent_id wallet a b key k new now l r ne hex full = (
    λ h. elim (Result-cases (seal c key (fork_payload new a b))) [
      | inl (s, e) ↦ seal_fails key k (fork_payload new a b) s ne hex full e
      | inr (x, e) ↦ ground arith
    ],
    λ h. elim (Result-cases (find_lca clock clock' b a l)) [
      | inr (x, e) ↦ ground arith
      | inl (d, f) ↦
          let p : Payload = merge_payload b a (length d.2) in
          elim (Result-cases (seal c key p)) [
            | inl (s, e) ↦ seal_fails key k p s ne hex full e
            | inr (x, e) ↦ ground arith
          ]
    ],
  )

  module _ (agent_id wallet original fork_id new now bytes : String) (l : Ledger) (clock : Clock)
      (root : ProtocolEvent) (rest : List StoredEvent) where
    -- The fork event, in the workspace of the first event of the lineage.
    abbrev pub grafted : ProtocolEvent
    grafted =
        branch_event memory_forked root.workspace_id agent_id wallet fork_id
          (fork_payload new original fork_id) (hash_payload c bytes) "v0_migration" now
