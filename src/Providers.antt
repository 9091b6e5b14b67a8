-- ===== src/Providers.antt =====
-- providers: the adapter interface and the registry, the node client, and the Bitcoin provider.
pub mod Registry
pub mod Node
pub mod Bitcoin
pub mod Client
pub mod Bootstrap
