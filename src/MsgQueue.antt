-- ===== src/MsgQueue.antt =====
-- 09_IPC/msq_header.h, msq_server.c and msq_client.c: a server that hands messages on to every
-- client that is logged in, over System V message queues.
pub mod Heap
pub mod Registry
pub mod Messages
pub mod Server
pub mod Client
mod Tests
