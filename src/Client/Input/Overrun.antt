-- ===== src/Client/Input/Overrun.antt =====
-- A long line as a message.
