-- ===== src/Examples.antt =====
-- Tests of the definitions on inputs that can be followed in the source, and instances of the
-- theorems at inputs that meet their hypotheses.
mod Jobs
mod Vad
mod Streams
mod Pages
mod LangId
mod Playlists
mod Services
mod Words
mod Samples
mod Videos
mod Breakdowns
