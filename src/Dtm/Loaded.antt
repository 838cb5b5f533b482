-- ===== src/Dtm/Loaded.antt =====
-- A hart after `reset` has put a file's values into it.
use uart_tsi.Dtm.Restore.{Restore}
use uart_tsi.Dtm.Hart.{Hart}
