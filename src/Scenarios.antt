-- ===== src/Scenarios.antt =====
-- Concrete runs: the theorems at inputs where their hypotheses hold.
mod Fixture
mod Money
mod Movement
mod Booked
mod Config
mod Queue
mod Web
mod Text
mod Balance
mod Replies
mod Member
mod Ledger
mod Codec
mod RabbitTrip
mod KafkaTrip
mod LoadTest
mod LoadRun
mod LoadSignals
mod History
mod Consumers
mod Adapters
