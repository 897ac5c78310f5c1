-- ===== src/Sdk.antt =====
-- The client library: sdk/types.go and codec.go (Signals), sdk/client.go with the TCP and WebSocket
-- clients over it (Client). How the TCP client cuts packets is in Transport.
pub mod Signals
pub mod Client
pub mod Login
pub mod Push
