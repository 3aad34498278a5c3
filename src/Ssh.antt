-- ===== src/Ssh.antt =====
-- Parts of crates/hop-server/src/ssh: the trust of target host keys on first use, the registry of
-- the sessions that can be terminated, what the SSH entry lets a client do, and the forwarding.
pub mod Tofu
pub mod Registry
pub mod Ingress
pub mod Proxy
pub mod Laws
