-- ===== src/Suite.antt =====
-- The repository's own tests of its C++ code (tst/unit/cpp, tst/integ/cpp, tst/load/cpp): the doubles that
-- they put in the place of gRPC and of processes, and each test as the statement that its expectations
-- make, under the test's name. `EXPECT_…` and `ASSERT_…` are equations and orders.
pub mod Fakes
mod Unary
mod Reports
mod Filters
mod Streamed
mod Calling
pub mod Identities
mod Configured
mod Shared
mod RoundTrip
mod Load
mod Tests
