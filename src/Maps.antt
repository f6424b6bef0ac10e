-- ===== src/Maps.antt =====
-- The maps of coturn/src/server/ns_turn_maps.c.
pub mod AddrMap
pub mod LmMap
