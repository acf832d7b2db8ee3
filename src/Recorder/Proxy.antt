-- ===== src/Recorder/Proxy.antt =====
-- services/recorder/src/sealedrun_recorder/proxy: what the proxies read of a request before they record it,
-- the system instructions in `Proxy/Prompt` and the labels header in `Proxy/Labels`.
pub mod Prompt
pub mod Labels
