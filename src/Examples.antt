-- ===== src/Examples.antt =====
-- The theorems and the code at concrete inputs.
mod Numbers
mod Sources
mod Shells
mod Commands
mod Records
mod Slots
mod Draws
mod Lives
mod Kills
mod Removals
mod Rows
mod Names
