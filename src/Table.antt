-- ===== src/Table.antt =====
-- A table of the database as the list of its rows, newest first, and the SQL statements that the
-- stores send: `UPDATE … SET … WHERE …` with its count of affected rows, `SELECT … WHERE …`.
mod Rows
mod Keys
mod Pick
unfoldable pub use Rows.{count, update, select, exists}
unfoldable pub use Pick.{pick_row}
unfoldable pub use Keys.{find, keyed, when_some, holds_at}
pub use Pick.{Among, PickOf, pick_row-PickOf, head-PickOf}
pub use Rows.{count-le-length, length-select, select-All, exists-count, length-update}
pub use Keys.{
  find-update, exists-keyed, Fresh, Unique, Unique-update, find-Fresh, Fresh-find, find-keyed,
}
