-- ===== src/Tests.antt =====
-- Concrete runs of the models: one instance for each parameter, and each theorem that has
-- hypotheses applied where they hold.
mod Fixtures
mod Core
mod Rooms
mod Players
mod Lock
mod Wire
mod Jobs
mod Security
mod Packets
mod Client
mod Http
mod Assistant
mod Mapper
mod Queries
