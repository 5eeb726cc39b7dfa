-- ===== src/Shell.antt =====
-- Shell/seashell.c: the line that is typed, and the commands.
pub mod Input
pub mod Commands
pub mod Directory
pub mod Main
pub mod Clock
pub mod Dump
pub mod Launch
