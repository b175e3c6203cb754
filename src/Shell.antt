-- ===== src/Shell.antt =====
-- The shell of src/kernel/kernel.c: the command that is typed, the log of the graphics console, the
-- prompt, the commands, the loop over the keys, and the report of the boot.
pub mod Input
pub mod Log
pub mod Prompt
pub mod Statements
pub mod State
pub mod Screens
pub mod Commands
pub mod Loop
pub mod Start
mod Tests
