-- ===== src/History/Padded.antt =====
-- An id with blanks around it, in `upsert_entry`.
