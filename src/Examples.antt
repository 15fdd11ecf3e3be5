-- ===== src/Examples.antt =====
-- Concrete runs of the functions of every part, and the theorems at concrete inputs.
mod Fixtures
mod Texts
mod Commands
mod Records
mod Scripts
mod Cards
mod OpenPgpCards
mod Signatures
mod NativeHost
mod Frontends
mod Serving
mod Programs
mod PivRuns
mod PivChip
mod PivHost
mod OpenPgpRun
