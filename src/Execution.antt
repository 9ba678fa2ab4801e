-- ===== src/Execution.antt =====
-- src/caqrs/execution: the brokers and the journal of the live broker.
pub mod Report
pub mod PaperBroker
pub mod Journal
pub mod Stream
pub mod AlpacaRest
pub mod LiveBroker
