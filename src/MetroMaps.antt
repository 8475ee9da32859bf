-- ===== src/MetroMaps.antt =====
-- metro-maps-cpp/src/main.cpp: the web server (Http) and the database connection (Postgres), which the
-- program does not use yet.
pub mod Http
pub mod Postgres
pub mod Main
