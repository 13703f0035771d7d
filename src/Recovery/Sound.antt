-- ===== src/Recovery/Sound.antt =====
-- What a recovery writes: every event in the ledger was checked, and the count is exact.
use walrus_os.Base.{
  ◌+◌, String, ◌≡◌, ◌≢◌, refl, true, false, Option, none, some, List, [], ◌∷◌, All, arith, length,
  eq_iff, Option-cases, inl, inr,
}
use walrus_os.Base.Result.{ok, err, Result-cases}
use walrus_os.Model.Value.{Payload, Value, str, get, truthy}
use walrus_os.Model.Event.{ProtocolEvent}
use walrus_os.Model.Crypto.{Primitives}
use walrus_os.Replay.BlobId.{codes, IsHarmless, valid_blob_id, valid_blob_id-IsHarmless}
use walrus_os.Replay.Engine.{is_signed}
use walrus_os.Replay.Genuine.{Verified, verify_signature-Verified}
use walrus_os.Sqlite.Tables.{Database}
use walrus_os.Sqlite.Protocol.{append_protocol_event}
use walrus_os.Sqlite.Replayed.{append_all}
use walrus_os.Recovery.Engine.{
  Header, Env, State, optional_field, timestamp_of, is_lost, hydrate, event_of, verified, accept,
  write, recover_from, recover,
}

-- A written event, in terms of the primitives: its blob id is harmless, and unless its payload
-- counts as lost, a signature is that of the key in the payload, if the payload names one.
pub record Restored (c : Primitives) (e : ProtocolEvent) : Type 0 where
  pub harmless : (b : String) → e.blob_id ≡ some b → All IsHarmless (codes b)
  pub signed :
      (k : String)
      → is_lost e.payload ≡ false
      → is_signed e ≡ true
      → get "public_key" e.payload ≡ str k
      → k ≢ ""
      → (bytes : String) × (c.canonical_json e.payload ≡ some bytes)
        × Verified c k (c.sha256 bytes) e.signature

verified-Restored :
    (c : Primitives) (e : ProtocolEvent)
    → valid_blob_id e.blob_id ≡ true
    → verified c e ≡ true
    → Restored c e
unfolding verified truthy
verified-Restored c e valid h = record {
  harmless = λ b p. (valid_blob_id-IsHarmless b (ground arith)).0;
  signed = λ k l s p ne. elim (Option-cases (c.canonical_json e.payload)) [
    | inl n ↦ absurd (ground arith)
    | inr (bytes, q) ↦ (
      bytes,
      q,
      verify_signature-Verified c k (c.sha256 bytes) e.signature (ground (arith, eq_iff k "")),
    )
  ];
}

event_of-fields :
    (column : Value → Option String) (h : Header) (blob_id : Option String) (p : Option Payload)
    (e : ProtocolEvent)
    → event_of column h blob_id p ≡ ok e
    → (e.blob_id ≡ blob_id) × (p ≡ some e.payload)
unfolding event_of
event_of-fields column h blob_id p e q = ground arith

module _ (c : Primitives) (env : Env) where
  accept-Restored : (h : Header) (e : ProtocolEvent) → accept c env h ≡ ok (some e) → Restored c e
  unfolding accept
  accept-Restored h e q = elim (Result-cases (optional_field (get "blob_id" h))) [
    | inr (x, p) ↦ absurd (ground arith)
    | inl (b, p) ↦ elim (Result-cases (event_of env.column h b (hydrate env b))) [
      | inr (x, r) ↦ absurd (ground arith)
      | inl (d, r) ↦
          let same : d ≡ e = ground arith in
          let valid : valid_blob_id b ≡ true = ground arith in
          rw (← same) (
            verified-Restored c d (rw (event_of-fields env.column h b (hydrate env b) d r).0 valid)
              (ground arith))
    ]
  ]

  -- The events of the headers that are accepted and that the ledger takes, up to the first header
  -- that raises.
  unfoldable pub accepted : List Header → State → List ProtocolEvent
  accepted [] s = []
  accepted (h ∷ hs) s = elim (accept c env h) [
    | err x ↦ []
    | ok none ↦ accepted hs s
    | ok (some e) ↦ elim (write env e s) [ err x ↦ [] | ok s' ↦ e ∷ accepted hs s' ]
  ]

  write-append :
      (e : ProtocolEvent) (s s' : State)
      → write env e s ≡ ok s'
      → (append_protocol_event env.json e s.ledger ≡ ok s'.ledger)
        × (s'.recovered ≡ s.recovered + 1)
  unfolding write
  write-append e s s' h = elim (Option-cases (timestamp_of env.column e.payload)) [
    | inl n ↦ absurd (ground arith)
    | inr (t, p) ↦ elim (Result-cases (append_protocol_event env.json e s.ledger)) [
      | inr (x, q) ↦ absurd (ground arith)
      | inl (l, q) ↦ ground arith
    ]
  ]

  recover_from-accepted :
      (hs : List Header) (s : State)
      → let s' = (recover_from c env hs s).1 in
        (append_all env.json (accepted hs s) s.ledger ≡ ok s'.ledger)
        × (s'.recovered ≡ s.recovered + length (accepted hs s))
  unfolding recover_from accepted append_all
  recover_from-accepted [] s = (refl, omega arith)
  recover_from-accepted (h ∷ hs) s = elim (Result-cases (accept c env h)) [
    | inr (x, p) ↦ rw (p, recover_from, accepted) (refl, omega arith)
    | inl (none, p) ↦ rw (p, recover_from, accepted) (recover_from-accepted hs s)
    | inl (some e, p) ↦ elim (Result-cases (write env e s)) [
      | inr (x, q) ↦ rw (p, q, recover_from, accepted) (refl, omega arith)
      | inl (s', q) ↦
          let ih = recover_from-accepted hs s' in
          let step = write-append e s s' q in
          rw (p, q, recover_from, accepted)
            (rw (append_all, step.0) ih.0, omega (arith, ih.1, step.1))
    ]
  ]

  accepted-Restored : (hs : List Header) (s : State) → All (Restored c) (accepted hs s)
  unfolding accepted
  accepted-Restored [] s = tt
  accepted-Restored (h ∷ hs) s = elim (Result-cases (accept c env h)) [
    | inr (x, p) ↦ rw (p, accepted) tt
    | inl (none, p) ↦ rw (p, accepted) (accepted-Restored hs s)
    | inl (some e, p) ↦ elim (Result-cases (write env e s)) [
      | inr (x, q) ↦ rw (p, q, accepted) tt
      | inl (s', q) ↦ rw (p, q, accepted) (accept-Restored h e p, accepted-Restored hs s')
    ]
  ]

  abbrev pub start : Database → State
  start l = record { ledger = l; indexed = []; recovered = 0 }

  -- Whatever headers the network delivers, a recovery adds to the SQLite ledger the events of the
  -- accepted headers up to the first header that raises, each once and in order; it counts them
  -- exactly, and each has a harmless blob id and, unless its payload counts as lost, a valid
  -- signature of the key that its payload names, if it is signed and names one.
  pub recover-Restored :
      (hs : List Header) (l : Database)
      → let s = (recover c env hs l).1 in
        let es = accepted hs (start l) in
        (append_all env.json es l ≡ ok s.ledger) × (s.recovered ≡ length es) × All (Restored c) es
  unfolding recover
  recover-Restored hs l =
      let r = recover_from-accepted hs (start l) in
      (r.0, omega (arith, r.1), accepted-Restored hs (start l))
