-- ===== src/Dtm/States.antt =====
-- What `reset` keeps of the harts' states, which the co-simulation reads afterwards.
use uart_tsi.Base.Text.{Text}
