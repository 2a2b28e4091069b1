-- ===== src/Net.antt =====
-- src/net.c: the HTTP requests that the library writes, and the video id of a URL.
pub mod Request
pub mod Url
pub mod Bounds
pub mod Innertube
pub mod VideoId
