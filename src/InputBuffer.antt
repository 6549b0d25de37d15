-- ===== src/InputBuffer.antt =====
-- src/xenomods/InputBuffer.cpp and include/xenomods/InputBuffer.hpp: the hooks on the game's pad
-- and UI input functions, and the setters that the other tools call.
pub mod State
pub mod Action
pub mod Buttons
pub mod Sticks
pub mod Layers
pub mod Api
pub mod Pad
pub mod Relay
pub mod Update
pub mod Examples
