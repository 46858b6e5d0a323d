-- ===== src/CircuitBreaker.antt =====
-- pkg/util/circuitbreaker/circuitbreaker.go: the sliding windows and the circuit breaker.
pub mod Results
pub mod Rates
pub mod CountWindow
pub mod TimeWindow
pub mod Window
pub mod Breaker
mod Examples
