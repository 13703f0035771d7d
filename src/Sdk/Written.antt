-- ===== src/Sdk/Written.antt =====
-- What the write path of an agent client checks, and what it stores.
use walrus_os.Base.{
  ◌⊎◌, ℕ, ◌+◌, ◌*◌, ◌/◌, ◌%◌, ◌≤◌, ◌<◌, String, ◌≡◌, ◌≢◌, refl, true, false, Option, some, List, [],
  ◌∷◌, ◌++◌, ◌==◌, ◌&&◌, eqb, arith, if◌then◌else◌, ap, eq_iff, Option-cases, Bool-cases, inl, inr,
}
use walrus_os.Base.Dict.{lookup, lookup-insert}
use walrus_os.Base.Result.{ok, err, runtime_error}
use walrus_os.Model.Value.{Value, str, strs}
use walrus_os.Model.Event.{ProtocolEvent}
use walrus_os.Model.Identity.{AgentIdentity, AgentStatus, active, paused, terminated}
use walrus_os.Sqlite.Tables.{CapabilityRow}
use walrus_os.EventStore.{or_none}
use walrus_os.Sdk.Agent.{
  AgentClient, Host, Clock, Handle, Write, write_event, guarded_write, ensure_initialized, opened,
  enriched, internal_fields, check_status, check_capability, grants_write, object_of, is_active,
  has_write, is_unexpired,
}

-- What an enriched payload has under a key.
abbrev field_of : AgentClient → AgentIdentity → Handle → Write → String → Option Value
field_of c a s w k =
    if "project" == k
    then some (or_none w.project)
    else if "summary" == k
    then some (or_none w.summary)
    else if "importance" == k
    then some w.importance
    else if "tags" == k
    then some (strs w.tags)
    else if "memory_type" == k
    then some (str w.memory_type)
    else if "class_type" == k
    then some (str w.memory_type)
    else if "stream_id" == k
    then some (str s.stream_id)
    else if "workspace_id" == k
    then some (str a.workspace_id)
    else if "public_key" == k
    then some (str a.public_key)
    else if "trust_root" == k
    then some (str a.trust_root)
    else if "agent_id" == k
    then some (str a.agent_id)
    else if "author" == k
    then some (str c.agent_name)
    else lookup k w.payload

-- The payload that a write stores has the fields of the client, whatever the developer's payload has
-- under their keys, and the developer's fields under all others.
lookup-enriched :
    (c : AgentClient) (a : AgentIdentity) (s : Handle) (w : Write) (k : String)
    → lookup k (enriched c a s w) ≡ field_of c a s w k
unfolding enriched internal_fields
lookup-enriched c a s w k = simp (lookup-insert)

active_or : (x : AgentStatus) → (is_active x ≡ true) ⊎ (check_status x ≡ err runtime_error)
unfolding check_status
active_or active = inl refl
active_or paused = inr refl
active_or terminated = inr refl

Status-cases : (x : AgentStatus) → (x ≡ active) ⊎ (check_status x ≡ err runtime_error)
unfolding check_status
Status-cases active = inl refl
Status-cases paused = inr refl
Status-cases terminated = inr refl

-- One of the capabilities has no end or has not reached it, and its mask, in binary, ends in `1x`.
abbrev pub Grant : ℕ → List CapabilityRow → Type 0
Grant epoch caps =
    (cap : CapabilityRow) × (front : List CapabilityRow) × (back : List CapabilityRow) × (caps
      ≡ front ++ cap ∷ back)
    × ((cap.valid_until_epoch ≡ 0) ⊎ (epoch ≤ cap.valid_until_epoch))
    × ((high : ℕ) × (low : ℕ) × (cap.verb_bitmask ≡ 4 * high + 2 + low) × (low < 2))

Grant-cons :
    (epoch : ℕ) (cap : CapabilityRow) (caps : List CapabilityRow)
    → Grant epoch caps
    → Grant epoch (cap ∷ caps)
Grant-cons epoch cap caps (c, front, back, here, unexpired, bits) =
    (c, cap ∷ front, back, ap (λ l. cap ∷ l) here, unexpired, bits)

mask_bits :
    (v : ℕ)
    → eqb (v / 2 % 2) 1 ≡ true
    → (high : ℕ) × (low : ℕ) × (v ≡ 4 * high + 2 + low) × (low < 2)
mask_bits v h = (v / 4, v % 2, ground (arith), omega arith)

grants_write-Grant :
    (epoch : ℕ) (caps : List CapabilityRow) → grants_write epoch caps ≡ true → Grant epoch caps
unfolding grants_write
grants_write-Grant epoch [] h = absurd (ground arith)
grants_write-Grant epoch (cap ∷ caps) h =
    elim (Bool-cases (is_unexpired epoch cap && has_write cap)) [
      | inl p ↦ (cap, [], caps, refl, (grind arith), mask_bits cap.verb_bitmask (ground arith))
      | inr p ↦ Grant-cons epoch cap caps (grants_write-Grant epoch caps (ground arith))
    ]

module _ (h : Host) (clock : Clock) (now : String × String) (pub_hex : String) (epoch : ℕ)
    (s : Handle) (w : Write) (c : AgentClient) where
  abbrev ready : AgentClient
  ready = opened s (ensure_initialized h clock pub_hex c)

  -- A paused or terminated agent writes nothing.
  pub write_event_inactive :
      (a : AgentIdentity)
      → ready.identity ≡ some a
      → is_active a.status ≡ false
      → write_event h clock now pub_hex epoch s w c ≡ (err runtime_error, ready)
  unfolding write_event guarded_write check_status
  write_event_inactive a there inactive = ground (arith, active_or a.status)

  write_event-grants_write :
      (caps_of : String → List CapabilityRow) (object : String) (e : ProtocolEvent)
      (c' : AgentClient)
      → h.capabilities ≡ some caps_of
      → object_of h.sui_object s.stream_id ≡ some object
      → object ≢ ""
      → write_event h clock now pub_hex epoch s w c ≡ (ok e, c')
      → grants_write epoch (caps_of object) ≡ true
  unfolding write_event guarded_write check_capability check_status
  write_event-grants_write caps_of object e c' has known ne done =
      ground (arith, Option-cases ready.identity, eq_iff object "")

  write_event-active :
      (e : ProtocolEvent) (c' : AgentClient)
      → write_event h clock now pub_hex epoch s w c ≡ (ok e, c')
      → (a : AgentIdentity) × (ready.identity ≡ some a) × (a.status ≡ active)
  unfolding write_event guarded_write check_status
  write_event-active e c' done = elim (Option-cases ready.identity) [
    | inl n ↦ absurd (ground arith)
    | inr (a, p) ↦ elim (Status-cases a.status) [
      | inl q ↦ (a, p, q)
      | inr q ↦ absurd (ground arith)
    ]
  ]

  -- Over a ledger that knows capabilities, and a stream whose Sui object has a nonempty id, a write
  -- that succeeds is the write of an active agent, and one of the capabilities of that object is not
  -- expired and has the bit of writing in its mask, which is the second lowest.
  pub write_event-Granted :
      (caps_of : String → List CapabilityRow) (object : String) (e : ProtocolEvent)
      (c' : AgentClient)
      → h.capabilities ≡ some caps_of
      → object_of h.sui_object s.stream_id ≡ some object
      → object ≢ ""
      → write_event h clock now pub_hex epoch s w c ≡ (ok e, c')
      → ((a : AgentIdentity) × (ready.identity ≡ some a) × (a.status ≡ active))
        × Grant epoch (caps_of object)
  write_event-Granted caps_of object e c' has known ne done = (
    write_event-active e c' done,
    grants_write-Grant epoch (caps_of object)
        (write_event-grants_write caps_of object e c' has known ne done),
  )
