-- ===== src/Rpc.antt =====
-- zero/rpc: the parts of the RPC framework that are modelled.
pub mod CircuitBreaker
pub mod LoadBalancer
