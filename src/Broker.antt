-- ===== src/Broker.antt =====
-- The message broker between the servers: rsp-libs/src/broker/routed_channel.cpp and
-- event_channel.cpp. Each class owns a thread that alone uses its ZeroMQ socket; what the socket
-- does (whether a send succeeds, what a poll delivers) is an argument of a round of the loop. A
-- round is atomic, since `stop` waits for the thread.
pub mod Worker
pub mod Channels
pub mod Delivery
pub mod Subscriber
pub mod Subscriptions
pub mod Proxy
