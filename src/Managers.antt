-- ===== src/Managers.antt =====
-- billiard/managers.py, `class Server`: the process that holds the objects of a manager.
pub mod Server
