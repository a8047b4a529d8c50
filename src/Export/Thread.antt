-- ===== src/Export/Thread.antt =====
-- controller/export/export_features.c: the thread. A turn is one reading of the clock, with what
-- follows it if the next export is due. What the other threads do to the arrays and to the switch
-- is a function of each turn, and the printing is one step.
use marina.Prelude.{ℕ, ◌+◌, Bool, Option, List, [], ◌∷◌, ◌++◌, if◌then◌else◌}
use marina.SessionHashtable.{SessionHashtable}
use marina.Features.Registers.{Descriptor, features, RegisterDriver, FeatureStore, read_features}
use marina.Dataplane.{Feature}
use marina.Export.{Column, Field, print_header, print_flow_data, Timespec, is_due}

-- What one export writes: the time, the header and the lines.
pub record Written : Type 0 where
  pub time : Timespec
  pub header : List Column
  pub lines : List (List Field)

-- A turn: the reading of the clock, what the others have done before it, and, for an export, the
-- clock and the sessions of the flows for `read_features`, what the others do after that, the time
-- for the first line, and the session hash table when it is copied.
pub record Turn (S : Type 0) : Type 0 where
  pub now : Timespec
  pub before : FeatureStore S → FeatureStore S
  pub seconds : ℕ
  pub egress_feature_to_session_id : ℕ → Option ℕ
  pub meanwhile : FeatureStore S → FeatureStore S
  pub time : Timespec
  pub session_hashtable : SessionHashtable

-- `file` has what was written, in order.
pub record ExportThread (S : Type 0) : Type 0 where
  pub last : Timespec
  pub store : FeatureStore S
  pub file : List Written

-- The features as the functions that print take them; `on_egress` is a generated constant.
unfoldable pub printed_features :
    {S : Type 0} → (ℕ → Bool) → ℕ → List Descriptor → FeatureStore S → List Feature
printed_features on_egress i [] s = []
printed_features on_egress i (d ∷ rest) s =
    record { values = (s.registers i).values; on_egress = on_egress i }
    ∷ printed_features on_egress (i + 1) rest s

module _ {S : Type 0} (driver : RegisterDriver S) (debug : Bool) (on_egress : ℕ → Bool)
    (ring_size feature_size : ℕ) where
  -- The features are read, and what the others make of the arrays is what is printed.
  unfoldable pub store_after : Turn S → ExportThread S → FeatureStore S
  store_after t thread = t.meanwhile (
      read_features driver ring_size t.seconds t.egress_feature_to_session_id feature_size
        (t.before thread.store))

  unfoldable pub written : Turn S → ExportThread S → Written
  written t thread =
      let printed = printed_features on_egress 0 features (store_after t thread) in
      record {
        time = t.time;
        header = print_header debug printed;
        lines = print_flow_data debug printed t.session_hashtable feature_size;
      }

  -- `last` is the reading of the clock that was due.
  unfoldable pub export : Turn S → ExportThread S → ExportThread S
  export t thread = record {
    last = t.now;
    store = store_after t thread;
    file = thread.file ++ written t thread ∷ [];
  }

  unfoldable pub turn : Turn S → ExportThread S → ExportThread S
  turn t thread =
      let exported = export t thread in
      if is_due t.now thread.last then exported else record thread { store = t.before thread.store }

  -- `feature_export_thread`, for as long as the clock is read.
  unfoldable pub feature_export_thread : List (Turn S) → ExportThread S → ExportThread S
  feature_export_thread [] thread = thread
  feature_export_thread (t ∷ rest) thread = feature_export_thread rest (turn t thread)
