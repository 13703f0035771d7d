-- ===== src/Memory/Restore/Forgets.antt =====
-- What a snapshot of a stream keeps of its events.
use walrus_os.Base.{ℕ, ◌+◌, String, ◌≡◌, refl, List, [], ◌∷◌, map, All}
use walrus_os.Model.Value.{Payload}
use walrus_os.Adapters.Ledger.{StoredEvent, memory, protocol, stored_id}
use walrus_os.Memory.State.{Engine, Env, Fresh}
use walrus_os.Memory.Read.{timeline}
use walrus_os.Memory.Restore.{snapshot_of, events_data, event_data}

event_data-payload :
    (e : StoredEvent) (p : Payload) (i : ℕ)
    → ((event_data e p i).payload ≡ p)
      × ((event_data e p i).id ≡ stored_id e)
      × ((event_data e p i).class_type ≡ "episodic")
unfolding event_data
event_data-payload (memory e) p i = (refl, refl, refl)
event_data-payload (protocol e) p i = (refl, refl, refl)

events_data-map :
    (i : ℕ) (tl : List (StoredEvent × Payload))
    → (map (λ d. d.payload) (events_data i tl) ≡ map (λ r. r.1) tl)
      × (map (λ d. d.id) (events_data i tl) ≡ map (λ r. stored_id r.0) tl)
      × All (λ d. d.class_type ≡ "episodic") (events_data i tl)
unfolding events_data
events_data-map i [] = (refl, refl, tt)
events_data-map i ((e, p) ∷ tl) =
    let rest = events_data-map (i + 1) tl in
    let here = event_data-payload e p i in
    (rw (here.0, rest.0) refl, rw (here.1, rest.1) refl, (here.2, rest.2))

-- A snapshot lists the payloads and the ids of the timeline, in its order; the memory type of every
-- event is lost, as each is stored as episodic.
snapshot_of_lem :
    (env : Env) (stream_id : String) (f : Fresh) (s : Engine)
    → let d = (snapshot_of env stream_id f s).events in
      (map (λ d. d.payload) d ≡ map (λ r. r.1) (timeline env stream_id s))
      × (map (λ d. d.id) d ≡ map (λ r. stored_id r.0) (timeline env stream_id s))
      × All (λ d. d.class_type ≡ "episodic") d
unfolding snapshot_of
snapshot_of_lem env stream_id f s = events_data-map 1 (timeline env stream_id s)
