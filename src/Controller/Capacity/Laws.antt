-- ===== src/Controller/Capacity/Laws.antt =====
-- The cache of the largest volume sizes.
use test_powerstore_automati.Client.{Client}
