-- ===== src/Dispatcher.antt =====
-- src/net/event_dispatcher.h and src/net/event_dispatcher.cc: the interface of the three
-- dispatchers, and what a loop relies on. Each dispatcher is a child module.
pub mod Base
pub mod Laws
pub mod Poll
pub mod Select
pub mod Epoll
pub mod Create
