-- ===== src/Recovery/Forged.antt =====
-- What `recover` of walrusos/engine/recovery.py does with a blob that says of itself that it is lost.
