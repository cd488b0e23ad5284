-- ===== src/Catalog/Keys.antt =====
-- Which rows the scan of a table finds.
