-- ===== src/Historian/Replication/Tables.antt =====
-- REPLICATION_TABLES of src/python/gizmo_historian.py: the names of the tables.
use gizmo.Prelude.{◌≡◌, refl, some}
use gizmo.Text.{text, text_eq}
use gizmo.Historian.Replication.{
  Table, fast_sample, platform_sample, minute_rollup, event, table_name, table_of,
}

pub table_of-name : (table : Table) → table_of (table_name table) ≡ some table
unfolding table_of table_name text text_eq
table_of-name fast_sample = refl
table_of-name platform_sample = refl
table_of-name minute_rollup = refl
table_of-name event = refl
