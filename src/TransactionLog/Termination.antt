-- ===== src/TransactionLog/Termination.antt =====
-- The loader never runs out of fuel, whatever the file holds.
use project_db.Key
use project_db.Value
use project_db.Key.{Key}
use project_db.MemTable.{MemTable}
use project_db.Value.{Value}
