-- ===== src/Exports/Histories.antt =====
-- Every history of the operations on exports keeps the invariant of their tables (exports/services/).
