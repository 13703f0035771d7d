-- ===== src/Tests/Replay.antt =====
-- Replays of walrusos/engine/replay.py on concrete logs.
use walrus_os.Base.{◌≡◌, refl, true, false, none, List, [], ◌∷◌, All, arith, eq_iff, ◌≤◌, length}
use walrus_os.Base.Result.{ok}
use walrus_os.Base.Dict.{lookup, insert}
use walrus_os.Model.Value.{Value, str, get, truthy, value_eq}
use walrus_os.Model.Event.{ProtocolEvent}
use walrus_os.Model.Crypto.{verify_signature}
use walrus_os.Projection.Agent.{holds, remove}
use walrus_os.Replay.BlobId.{valid_blob_id, codes, IsHarmless, valid_blob_id-IsHarmless}
use walrus_os.Replay.Tracker.{Tracker, track}
use walrus_os.Replay.Engine.{Options, replay, admits, is_last, is_past, capability_ok}
use walrus_os.Replay.Sound
use walrus_os.Replay.Sound.{Sublist, Sublist-replay, replay-Genuine}
use walrus_os.Replay.Access
use walrus_os.Replay.Access.{replay-Allowed, revoke_last-capability_ok}
use walrus_os.Tests.Data.{
  toy, never_later, registration, write, grant_read, grant_write, revoke_read, forged,
}

abbrev strict : Options
strict = record {
  until_timestamp = none;
  until_event = none;
  verify_crypto = true;
  verify_capabilities = true;
}

-- The forged write and the write without `write` are dropped.
abbrev log : List ProtocolEvent
log = registration ∷ grant_read ∷ write ∷ grant_write ∷ forged ∷ write ∷ []

abbrev kept : List ProtocolEvent
kept = registration ∷ grant_read ∷ grant_write ∷ write ∷ []

replayed : replay toy never_later strict log ≡ ok kept
unfolding replay admits is_last is_past track lookup insert get truthy holds value_eq valid_blob_id
    verify_signature
replayed = refl

valid_blob_id-IsHarmless_example :
    All IsHarmless (codes "manifest:ab-1") × (length (codes "manifest:ab-1") ≤ 74)
unfolding valid_blob_id
valid_blob_id-IsHarmless_example = valid_blob_id-IsHarmless "manifest:ab-1" refl

Sublist-replay_example : Sublist kept log
Sublist-replay_example = Sublist-replay toy never_later strict log kept replayed

replay-Genuine_example : All (Sound.Outcome toy never_later strict) kept
replay-Genuine_example = replay-Genuine toy never_later strict log kept refl replayed

replay-Allowed_example : All (Access.Outcome toy never_later strict refl log) kept
replay-Allowed_example = replay-Allowed toy never_later strict refl log kept replayed

abbrev reader : Tracker
reader = record {
  capabilities = ("a1", str "read" ∷ []) ∷ [];
  keys = [];
  anonymous_key = Value.null;
}

abbrev nobody : Tracker
nobody = record { capabilities = ("a1", []) ∷ []; keys = []; anonymous_key = Value.null }

-- A reader may not write, and may once its last capability is revoked.
reader_refused : capability_ok strict reader write ≡ false
unfolding capability_ok lookup holds value_eq
reader_refused = refl

revoke_last-capability_ok_example : capability_ok strict nobody write ≡ true
unfolding lookup get truthy track holds remove value_eq insert
revoke_last-capability_ok_example =
    revoke_last-capability_ok strict reader nobody revoke_read write "a1" (str "read") refl refl
      refl refl refl (λ p. absurd (ground (arith, eq_iff "a1" ""))) refl refl
