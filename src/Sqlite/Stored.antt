-- ===== src/Sqlite/Stored.antt =====
-- Wrapped keys and tasks in the SQLite ledger, and the epochs after a restart.
use walrus_os.Base.{
  All-weaken, ◌+◌, ◌≤◌, ◌<◌, String, ◌<>◌, ◌≡◌, refl, true, Option, none, some, List, [], ◌∷◌,
  arith, eq_refl, ap, ◌∙◌, sym, All,
}
use walrus_os.Base.Dict.{lookup, insert, lookup-insert}
use walrus_os.Base.Result.{ok, ◌>>=◌, or_else}
use walrus_os.Model.Event.{MemoryEvent}
use walrus_os.Memory.State.{Env, next_epoch}
use walrus_os.Tasks.{Task, Status, pending, status_name}
use walrus_os.Sqlite.Tables.{Database, KeyRow, TaskRow, Json, empty}
use walrus_os.Sqlite.Rows.{Faithful}
use walrus_os.Sqlite.Order.{rising}
use walrus_os.Sqlite.Streams.{get_epoch_counter}
use walrus_os.Sqlite.Log.{Log, Op, replay, events_of, latest, epoch_of, all_allowed}
use walrus_os.Sqlite.Refine.{run, run_refines}
use walrus_os.Sqlite.Identities.{Cipher, store_agent_private_key, load_agent_private_key}
use walrus_os.Sqlite.Tasks.{
  task_row, updated_row, save_task, to_task, get_task, nonempty, status_of,
}

-- What the cipher and Base64 promise.
pub record Sealed (c : Cipher) (nonce : String) : Type 0 where
  pub base64_back : (t : String) → c.b64decode (c.b64encode t) ≡ some t
  pub split_back : (t : String) → c.split (nonce <> t) ≡ (nonce, t)
  pub decrypt_back : (key t : String) → c.decrypt key nonce (c.encrypt key nonce t) ≡ some t

abbrev wrapped : Cipher → String → String → String → String → String → String → KeyRow
wrapped c salt nonce now agent_id key password = record {
  agent_id = agent_id;
  wrapped_key = c.b64encode (nonce <> c.encrypt (c.derive password salt) nonce key);
  kek_salt = c.b64encode salt;
  created_at = now;
}

abbrev with_key : String → KeyRow → Database → Database
with_key agent_id r d = record d { agent_keys = insert agent_id r d.agent_keys }

stored :
    (c : Cipher) (salt nonce now agent_id key password : String) (d : Database)
    → lookup agent_id d.agent_keys ≡ none
    → store_agent_private_key c salt nonce now agent_id key password d
      ≡ with_key agent_id (wrapped c salt nonce now agent_id key password) d
unfolding store_agent_private_key
stored c salt nonce now agent_id key password d n = ground arith

kept :
    (c : Cipher) (salt nonce now agent_id key password : String) (r : KeyRow) (d : Database)
    → lookup agent_id d.agent_keys ≡ some r
    → store_agent_private_key c salt nonce now agent_id key password d ≡ d
unfolding store_agent_private_key
kept c salt nonce now agent_id key password r d h = ground arith

-- If the cipher decrypts what it encrypted, then a first key of an agent is loaded again with its
-- password, and storing another key of the agent, with whatever password, changes nothing.
pub load_agent_private_key-store_agent_private_key :
    (c : Cipher) (salt nonce now agent_id key password : String) (d : Database)
    → Sealed c nonce
    → lookup agent_id d.agent_keys ≡ none
    → let d' = store_agent_private_key c salt nonce now agent_id key password d in
      (load_agent_private_key c agent_id password d' ≡ ok (some key))
      × ((salt' nonce' now' key' password' : String)
          → store_agent_private_key c salt' nonce' now' agent_id key' password' d' ≡ d')
unfolding load_agent_private_key
load_agent_private_key-store_agent_private_key c salt nonce now agent_id key password d s n =
    rw (stored c salt nonce now agent_id key password d n) (
      rw
          (
            lookup-insert agent_id agent_id (wrapped c salt nonce now agent_id key password)
                d.agent_keys,
            eq_refl agent_id,
            s.base64_back salt,
            s.base64_back (nonce <> c.encrypt (c.derive password salt) nonce key),
            s.split_back (c.encrypt (c.derive password salt) nonce key),
            s.decrypt_back (c.derive password salt) key,
          )
          refl,
      λ salt' nonce' now' key' password'.
          kept c salt' nonce' now' agent_id key' password'
            (wrapped c salt nonce now agent_id key password)
            (with_key agent_id (wrapped c salt nonce now agent_id key password) d)
            (rw
              (
                lookup-insert agent_id agent_id (wrapped c salt nonce now agent_id key password)
                    d.agent_keys,
                eq_refl agent_id,
              )
              refl),
    )

status_of-status_name : (s : Status) → status_of (status_name s) ≡ some s
unfolding status_of
status_of-status_name pending = refl
status_of-status_name _ = refl

abbrev with_task : String → TaskRow → Database → Database
with_task k r d = record d { tasks = insert k r d.tasks }

save_task-new :
    (json : Json) (t : Task) (d : Database)
    → lookup t.task_id d.tasks ≡ none
    → save_task json t d ≡ with_task t.task_id (task_row json t) d
unfolding save_task
save_task-new json t d n = rw n refl

save_task-known :
    (json : Json) (t : Task) (r : TaskRow) (d : Database)
    → lookup t.task_id d.tasks ≡ some r
    → save_task json t d ≡ with_task t.task_id (updated_row json t r) d
unfolding save_task
save_task-known json t r d h = rw h refl

module _ (json : Json)
    (back : (xs : List String) → json.loads_list (json.dumps_list xs) ≡ some xs) where
  to_task-task_row :
      (t : Task)
      → to_task json (task_row json t) ≡ ok (record t { completed_at = nonempty t.completed_at })
  unfolding to_task task_row
  to_task-task_row t =
      rw
        (
          back t.subtask_ids,
          back t.memory_refs,
          back t.artifact_refs,
          back t.tags,
          status_of-status_name t.status,
        )
        refl

  to_task-updated_row :
      (t old : Task)
      → to_task json (updated_row json t (task_row json old))
        ≡ ok (record t {
          task_id = old.task_id;
          workspace_id = old.workspace_id;
          created_by = old.created_by;
          parent_task_id = old.parent_task_id;
          created_at = old.created_at;
          completed_at = nonempty t.completed_at;
        })
  unfolding to_task task_row updated_row
  to_task-updated_row t old =
      rw
        (
          back t.subtask_ids,
          back t.memory_refs,
          back t.artifact_refs,
          back t.tags,
          status_of-status_name t.status,
        )
        refl

  get_task-with_task :
      (k : String) (r : TaskRow) (d : Database)
      → get_task json k (with_task k r d) ≡ (to_task json r >>= λ t. ok (some t))
  unfolding get_task
  get_task-with_task k r d = rw (lookup-insert k k r d.tasks, eq_refl k) refl

  known :
      (t t' : Task) (d : Database)
      → t'.task_id ≡ t.task_id
      → lookup t'.task_id (with_task t.task_id (task_row json t) d).tasks ≡ some (task_row json t)
  known t t' d same =
      rw (same, lookup-insert t.task_id t.task_id (task_row json t) d.tasks, eq_refl t.task_id) refl

  -- If JSON reads back what it wrote, a task that is saved under a new id is found with all its
  -- fields, but that an empty time of completion counts as none, and a task that is then saved
  -- under the same id is found with all fields but the workspace, the creator, the parent and the
  -- time of creation, which stay those of the first.
  pub get_task-save_task :
      (t t' : Task) (d : Database)
      → lookup t.task_id d.tasks ≡ none
      → t'.task_id ≡ t.task_id
      → (get_task json t.task_id (save_task json t d)
          ≡ ok (some (record t { completed_at = nonempty t.completed_at })))
        × (get_task json t.task_id (save_task json t' (save_task json t d))
            ≡ ok (
                some (record t' {
                  task_id = t.task_id;
                  workspace_id = t.workspace_id;
                  created_by = t.created_by;
                  parent_task_id = t.parent_task_id;
                  created_at = t.created_at;
                  completed_at = nonempty t'.completed_at;
                })))
  get_task-save_task t t' d n same =
      let first = with_task t.task_id (task_row json t) d in
      rw (save_task-new json t d n) (
        rw (get_task-with_task t.task_id (task_row json t) d, to_task-task_row t) refl,
        ap (get_task json t.task_id) (
              save_task-known json t' (task_row json t) first (known t t' d same)
              ∙ ap (λ k. with_task k (updated_row json t' (task_row json t)) first) same)
            ∙ get_task-with_task t.task_id (updated_row json t' (task_row json t)) first
            ∙ ap (λ r. r >>= λ x. ok (some x)) (to_task-updated_row t' t),
      )

abbrev last_of : Option MemoryEvent → List MemoryEvent → Option MemoryEvent
last_of acc [] = acc
last_of acc (e ∷ es) = last_of (some e) es

latest-events_of :
    (sid : String) (acc : Option MemoryEvent) (log : Log)
    → latest sid acc log ≡ last_of acc (events_of sid log)
unfolding latest events_of
latest-events_of sid acc [] = refl
latest-events_of sid acc ((j, e) ∷ log) =
    ground (arith, latest-events_of sid acc log, latest-events_of sid (some e) log)

-- Epochs that rise are none of them above that of the last event.
rising-last_of :
    (acc : Option MemoryEvent) (es : List MemoryEvent)
    → rising (λ e. e.epoch) (epoch_of acc) es ≡ true
    → (epoch_of acc ≤ epoch_of (last_of acc es)) × All (λ e. e.epoch ≤ epoch_of (last_of acc es)) es
rising-last_of acc [] h = (omega arith, tt)
rising-last_of acc (e ∷ es) h =
    let rest = rising-last_of (some e) es (ground arith) in
    (ground (arith, rest.0), (rest.0, rest.1))

counter_after :
    (json : Json) (f : Faithful json) (ops : List Op) (d : Database) (sid : String)
    → all_allowed ops [] ≡ true
    → run json ops empty ≡ ok d
    → get_epoch_counter sid d ≡ epoch_of (last_of none (events_of sid (replay ops [])))
counter_after json f ops d sid a ran =
    let p = run_refines json f ops a in
    ap (λ x. get_epoch_counter sid (or_else x empty)) (sym ran ∙ p.1)
    ∙ p.2.counter sid
    ∙ ap epoch_of (latest-events_of sid none (replay ops []))

next_epoch-seeded :
    (env : Env) (d : Database) (sid : String)
    → env.epoch_counter ≡ some (λ s. get_epoch_counter s d)
    → (next_epoch env sid []).0 ≡ get_epoch_counter sid d + 1
unfolding next_epoch lookup
next_epoch-seeded env d sid h = rw h refl

-- After a run of allowed calls on a new database, a memory engine that is started again on it, with
-- no epochs in memory, gives the next event of a stream an epoch above those of all its events, if
-- these rise from one.
pub next_epoch-restart :
    (json : Json) (f : Faithful json) (ops : List Op) (env : Env) (d : Database) (sid : String)
    → all_allowed ops [] ≡ true
    → run json ops empty ≡ ok d
    → env.epoch_counter ≡ some (λ s. get_epoch_counter s d)
    → rising (λ e. e.epoch) 0 (events_of sid (replay ops [])) ≡ true
    → All (λ e. e.epoch < (next_epoch env sid []).0) (events_of sid (replay ops []))
next_epoch-restart json f ops env d sid a ran seeded up =
    All-weaken (λ e. e.epoch ≤ epoch_of (last_of none (events_of sid (replay ops []))))
      (events_of sid (replay ops []))
      (λ e h.
        omega (arith, next_epoch-seeded env d sid seeded, counter_after json f ops d sid a ran, h))
      (rising-last_of none (events_of sid (replay ops [])) up).1
