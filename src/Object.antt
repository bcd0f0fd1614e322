-- ===== src/Object.antt =====
-- src/Object.h and src/Object.cpp, one module for each concern. A method takes the address of its
-- object, and where the source asks Thread::currentThread(), the answer as the argument `caller`.
pub mod Names
pub mod MetaCall
pub mod CallLater
pub mod Affinity
pub mod Timers
pub mod Lifetime
