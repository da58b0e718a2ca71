-- ===== src/Frame/Ext.antt =====
-- src/frame.c: the payloads of extension containers.
pub mod Heightfield
pub mod Polyline
pub mod Dispatch
