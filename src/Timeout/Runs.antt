-- ===== src/Timeout/Runs.antt =====
-- A timeout of five seconds in a process that was suspended for a minute (centrifuge/client.py).
