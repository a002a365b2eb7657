-- ===== src/Connector/Stop.antt =====
-- `stop` and the function that it queues.
use chtho.Connector.{Connector}
