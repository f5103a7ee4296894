-- ===== src/Examples.antt =====
-- Tests, and the theorems at concrete inputs.
mod Base64
mod ChatFile
mod Mentions
mod Sort
mod Bus
mod StripAnsi
mod Registry
mod TimeParse
