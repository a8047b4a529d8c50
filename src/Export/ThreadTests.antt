-- ===== src/Export/ThreadTests.antt =====
-- The export thread on a clock that it reads four times.
use marina.Prelude.{
  ℕ, ◌+◌, ◌<◌, ◌≤◌, ◌≡◌, refl, true, false, none, List, [], ◌∷◌, length, ◌↔◌, success, ◌==◌,
  if◌then◌else◌, some,
}
use mathlib.Core.List.{Memᴰ}
use mathlib.Core.List.Memᴰ.{not-nil}
use marina.Ringbuffer
use marina.Commands.{pkt_timeout_flow}
use marina.SessionHashtable.{session_hashtable_init}
use marina.Features.Registers.{RegisterDriver}
use marina.Export.{Timespec, is_due}
use marina.Export.Thread.{Turn, ExportThread, turn, export, feature_export_thread}
use marina.Export.Exports.{AllShorter, exports_iff_due, feature_export_thread-AllShorter}

-- Every register shows the state of the switch at every index.
abbrev driver : RegisterDriver ℕ
driver = record {
  reset = λ r pipe s. s;
  sync = λ r s. (success, s);
  read = λ r buffer s. (success, λ i. s, s);
}

abbrev at_time : ℕ → ℕ → Timespec
at_time sec nsec = record { tv_sec = sec; tv_nsec = nsec }

abbrev turn_at : Timespec → Turn ℕ
turn_at now = record {
  now = now;
  before = λ s. record s { switch = s.switch + 10 };
  seconds = 100;
  egress_feature_to_session_id = λ i. none;
  meanwhile = λ s. s;
  time = now;
  session_hashtable = record session_hashtable_init {
    feature_index_to_entry_map = λ i. if i == 4 then some 0 else none;
  };
}

-- After 5.9 seconds neither 6.8 nor 8.7 is due.
abbrev turns : List (Turn ℕ)
turns =
    turn_at (at_time 6 800000000)
    ∷ turn_at (at_time 8 700000000)
    ∷ turn_at (at_time 8 900000000)
    ∷ turn_at (at_time 9 100000000)
    ∷ []

abbrev thread : ExportThread ℕ
thread = record {
  last = at_time 5 900000000;
  store = record {
    registers =
        λ f. record { values = λ i. 0; data_plane_values = λ i. 0; last_data_plane_value = λ i. 0 };
    last_flow_update = λ i. 0;
    packet_ring = Ringbuffer.init (λ i. pkt_timeout_flow 0) 0;
    switch = 0;
  };
  file = [];
}

abbrev after : ExportThread ℕ
after = feature_export_thread driver true (λ i. false) 4 8 turns thread

one_export : length after.file ≡ 1
unfolding feature_export_thread turn is_due export
one_export = refl

exports_iff_due_example : (length thread.file < length after.file) ↔ (
    (t : Turn ℕ) × Memᴰ t turns
    × (thread.last.tv_sec < t.now.tv_sec)
    × (thread.last.tv_nsec ≤ t.now.tv_nsec))
exports_iff_due_example = exports_iff_due driver true (λ i. false) 4 8 turns thread

feature_export_thread-AllShorter_example : AllShorter after.file
unfolding AllShorter
feature_export_thread-AllShorter_example =
    feature_export_thread-AllShorter driver true (λ i. false) 4 8 turns thread
      (λ w m. absurd (not-nil m))
