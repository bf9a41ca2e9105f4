-- ===== src/Util/Tests.antt =====
-- The theorems of util/ at concrete values.
mod TxtTests
