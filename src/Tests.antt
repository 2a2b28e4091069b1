-- ===== src/Tests.antt =====
-- Concrete runs, and each theorem with hypotheses applied at an input that meets them.
mod Main
mod Media
mod Net
mod Page
mod Queue
mod Buffer
mod Dash
mod Http
mod Info
mod Cache
mod Cli
mod Extract
mod FormatUrl
mod Mux
mod Script
mod Shutdown
mod Closing
mod Sig
mod Start
mod VideoId
