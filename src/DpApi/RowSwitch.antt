-- ===== src/DpApi/RowSwitch.antt =====
-- A switch with tables of rows, which gives a new row the next handle, if that is free.
use marina.Prelude.{
  ℕ, ◌+◌, ◌≡◌, refl, ◌==◌, ◌&&◌, if◌then◌else◌, Option, none, some, Status, success, failure,
}
use marina.DpApi.{Driver}
use marina.DpApi.Rows.{Row, row4, row6, Works}

pub record Switch : Type 0 where
  pub tables : ℕ → ℕ → Option Row
  pub next : ℕ

abbrev pub rows : Switch → ℕ → ℕ → Option Row
rows s = s.tables

abbrev pub with_row : Switch → ℕ → ℕ → Option Row → Switch
with_row s p k row = record s {
  tables = λ p' k'. if p' == p && k' == k then row else s.tables p' k';
  next = s.next + 1;
}

abbrev pub insert_row : Switch → ℕ → Row → Option Row → Status × ℕ × Switch
insert_row s p row none = (success, s.next, with_row s p s.next (some row))
insert_row s p row (some other) = (failure, s.next, s)

abbrev pub driver : Driver Switch ℕ
driver = record {
  ipv4_table_add = λ pipe m r s. insert_row s 2 (row4 pipe m r) (s.tables 2 s.next);
  ipv6_table_add = λ pipe m r s. insert_row s 10 (row6 pipe m r) (s.tables 10 s.next);
  ipv4_table_delete = λ handle s. (success, with_row s 2 handle none);
  ipv6_table_delete = λ handle s. (success, with_row s 10 handle none);
  write_bloom_filter = λ i pipe index value s. (success, s);
}

insert_lem :
    (s : Switch) (p : ℕ) (row : Row) (old : Option Row)
    → s.tables p s.next ≡ old
    → let (status, handle, s') = insert_row s p row old in
      status ≡ success
      → (s.tables p handle ≡ none)
        × ((p' k : ℕ)
            → s'.tables p' k ≡ (if p' == p && k == handle then some row else s.tables p' k))
insert_lem s p row none e good = (e, λ p' k. refl)
insert_lem s p row (some other) e good = absurd (cc good)

pub works : Works driver rows
works = record {
  add4 = λ pipe m r s. insert_lem s 2 (row4 pipe m r) (s.tables 2 s.next) refl;
  add6 = λ pipe m r s. insert_lem s 10 (row6 pipe m r) (s.tables 10 s.next) refl;
  delete4 = λ handle row s e. (refl, λ p k. refl);
  delete6 = λ handle row s e. (refl, λ p k. refl);
  bloom = λ i pipe index value s. refl;
}
