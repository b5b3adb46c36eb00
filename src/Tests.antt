-- ===== src/Tests.antt =====
-- Runs of the definitions on inputs that can be followed in the source, and the theorems at inputs that
-- meet their hypotheses.
mod QueryTests
mod ExecutorTests
mod FollowTests
mod IngestTests
mod CliTests
mod LikeTests
mod ParserTests
mod IndexerTests
mod WatchTests
mod ApiTests
mod OutputTests
