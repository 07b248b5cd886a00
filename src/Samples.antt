-- ===== src/Samples.antt =====
-- Concrete libraries, which the tests run the program with: a Redis that is a list of entries, JSON
-- values in two kinds, and a database that is a list of rows.
pub mod SampleRedis
pub mod SampleJson
pub mod SamplePlatform
pub mod SampleTimes
