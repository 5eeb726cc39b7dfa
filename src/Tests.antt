-- ===== src/Tests.antt =====
-- Tests, and each result at a concrete input.
mod PmmTests
mod OwnershipTests
mod VmmTests
mod ProcessTests
mod PageTests
mod StartTests
mod StringsTests
mod VfsTests
mod RamdiskTests
mod FatTests
mod DeviceTests
mod Stored
mod TextTests
mod ShellTests
mod SessionTests
mod ChangeDirTests
