-- ===== src/Rpc.antt =====
-- The RPC framework (datacake-rpc/src): the checksummed views of messages, the table of handlers
-- of a server, and a request from the client to the handler and back.
--
-- The serialiser (rkyv), the CRC and the HTTP library are not part of the repository: they are
-- arguments, a `Codec` for each message type, a function `crc`, and the chunks in which a body
-- arrives. What is relied on is a hypothesis of the theorem that relies on it.
pub mod Status
pub mod View
pub mod Body
pub mod Registry
pub mod Removal
pub mod Server
pub mod Client
pub mod Exchange
