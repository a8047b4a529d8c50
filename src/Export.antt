-- ===== src/Export.antt =====
-- controller/export/export_features.c, without EXPORT_NUMPY: the lines that the export thread
-- writes, as the fields before each semicolon. `debug` is whether DEBUG is defined. The clock and
-- the pipe that the lines go to are outside; Thread has the loop.
pub mod Rows
pub mod Thread
pub mod Exports
mod Tests
mod ThreadTests
use marina.Prelude.{
  ℕ, zero, suc, ◌+◌, ◌-◌, ◌∷◌, ◌++◌, [], List, map, Bool, true, false, Option, none, some, ltb, leb,
  not, ◌&&◌, if◌then◌else◌,
}
use marina.Prelude.Int.{ℤ}
use marina.Structs.{FiveTuple, L3Proto}
use marina.Hashtable.{Entry}
use marina.SessionHashtable.{SessionHashtable, egress_index}
use marina.Features.{min_session_id}
use marina.Dataplane.{Feature}

-- The names in the header; a feature is named by its place in the array.
pub data Column : Type 0 where
  uuid client_ip to_server first_packet_dpts flow_count session_id dev_port : Column
  feature : ℕ → Column

-- What a field of a line shows: an address as `inet_ntop` prints it, or a number.
pub data Field : Type 0 where
  address : L3Proto → ℕ → Field
  flag : Bool → Field
  number : ℕ → Field
  signed : ℤ → Field

unfoldable pub feature_columns : ℕ → List Feature → List Column
feature_columns i [] = []
feature_columns i (f ∷ fs) = feature i ∷ feature_columns (i + 1) fs

-- `print_header` has the time in a line before this one.
unfoldable pub print_header : Bool → List Feature → List Column
print_header debug features =
    uuid
      ∷ client_ip
      ∷ to_server
      ∷ first_packet_dpts
      ∷ flow_count
      ∷ (if debug then session_id ∷ dev_port ∷ [] else [])
    ++ feature_columns 0 features

-- The uuid is passed, and not printed.
unfoldable pub print_session_five_tuple : Bool → FiveTuple → ℕ → ℤ → List Field
print_session_five_tuple debug t id count =
    address t.h.l3_proto (if t.sh.to_server then t.h.src_addr else t.h.dst_addr)
    ∷ flag t.sh.to_server
    ∷ number t.ingress_ts
    ∷ signed count
    ∷ (if debug then number id ∷ number t.dev_port ∷ [] else [])

-- `features[j]->values[session_id + features[j]->on_egress * five_tuple->session_id_egress_offset]`.
unfoldable pub feature_fields : FiveTuple → ℕ → List Feature → List Field
feature_fields t id [] = []
feature_fields t id (f ∷ fs) =
    number (f.values (if f.on_egress then egress_index id t else id)) ∷ feature_fields t id fs

module _ (debug : Bool) (features : List Feature) (table : SessionHashtable) where
  -- The line of an entry.
  unfoldable pub flow_line : Entry FiveTuple ℕ → List Field
  flow_line e =
      print_session_five_tuple debug e.key e.value (table.flow_count e.value)
      ++ feature_fields e.key e.value features

  -- The cell that the map leads to, or none.
  unfoldable pub with_line : Option ℕ → List (List Field) → List (List Field)
  with_line none rest = rest
  with_line (some index) rest = flow_line (table.entries index) ∷ rest

  -- The loop over `k` ids from `i` on.
  unfoldable pub flow_lines : ℕ → ℕ → List (List Field)
  flow_lines zero i = []
  flow_lines (suc k) i = with_line (table.feature_index_to_entry_map i) (flow_lines k (i + 1))

  unfoldable pub print_flow_data : ℕ → List (List Field)
  print_flow_data feature_size = flow_lines (feature_size - min_session_id) min_session_id

-- `struct timespec`.
pub record Timespec : Type 0 where
  pub tv_sec : ℕ
  pub tv_nsec : ℕ

-- The test of the thread for the next export.
unfoldable pub is_due : Timespec → Timespec → Bool
is_due now last = ltb last.tv_sec now.tv_sec && leb last.tv_nsec now.tv_nsec
