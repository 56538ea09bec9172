-- ===== src/Historian/Sync/Connection.antt =====
-- What `_set_connection` of src/python/gizmo_historian.py leaves alone.
use gizmo.Prelude.{◌≡◌, Bool, ℕ, arith}
use gizmo.Text.{Text}
use gizmo.Historian.Store.{record_event, insert_event}
use gizmo.Historian.Archive.{Archive}
use gizmo.Historian.Sync.{Recorder, connection_event, set_connection}

-- What mirroring platform samples depends on.
pub record IsKept (a b : Archive) : Type 0 where
  pub samples : b.platform_sample ≡ a.platform_sample
  pub cursors : b.replication_cursor ≡ a.replication_cursor

pub connection_event-IsKept :
    (now : ℕ) (connected : Bool) (details : Text) (a : Archive)
    → IsKept a (connection_event now connected details a)
unfolding connection_event record_event insert_event
connection_event-IsKept now connected details a = ground arith

pub set_connection-IsKept :
    (now : ℕ) (details : Text) (connected : Bool) (r : Recorder)
    → IsKept r.archive (set_connection now details connected r).archive
unfolding set_connection
set_connection-IsKept now details connected r = ground (
  arith,
  (connection_event-IsKept now connected details r.archive).samples,
  (connection_event-IsKept now connected details r.archive).cursors,
)

pub source_id-set_connection :
    (now : ℕ) (details : Text) (connected : Bool) (r : Recorder)
    → (set_connection now details connected r).source_id ≡ r.source_id
unfolding set_connection
source_id-set_connection now details connected r = ground arith

pub expected-set_connection :
    (now : ℕ) (details : Text) (connected : Bool) (r : Recorder)
    → (set_connection now details connected r).expected_source_id ≡ r.expected_source_id
unfolding set_connection
expected-set_connection now details connected r = ground arith
