-- ===== src/Http.antt =====
-- zero/http: the parts of HTTP that are modelled.
pub mod Hpack
