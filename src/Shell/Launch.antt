-- ===== src/Shell/Launch.antt =====
-- check_elf of Shell/seashell.c, the command elf32: a process from a path that is typed.
--
-- The messages are left out. The entry to user mode is the frame that it pops, `none` where
-- executeProcess returns.
use sea_star_os.Base.{ℕ, Option, some, and_then}
use sea_star_os.CLib.Strings.{Memory}
use sea_star_os.Fs.Vfs.{File, Devices}
use sea_star_os.Kernel.Pmm.{Pmm}
use sea_star_os.Kernel.Task.Process.{Machine, Process, UserFrame, create_process, execute_process}
use sea_star_os.Shell.Directory.{Places, Shell, get_path, select_path}

-- what createProcess returns and the frame, the shell, and the kernel behind it
pub record Launched (D : Type 0) : Type 0 where
  pub ret : ℕ
  pub frame : Option UserFrame
  pub shell : Shell D
  pub pmm : Pmm
  pub process : Process

-- the process is run whatever createProcess returns
abbrev pub launched_with : {D : Type 0} → Shell D → ℕ → Machine D → Launched D
launched_with t ret m = record {
  ret = ret;
  frame = execute_process m.process;
  shell = record t { mem = m.mem; disk = m.disk };
  pmm = m.pmm;
  process = m.process;
}

module _ {D : Type 0} (table : Devices (Memory × D)) (blank : File) (at : Places)
    (buf dir : ℕ) where
  pub check_elf : ℕ → ℕ → Pmm → Process → Shell D → Option (Launched D)
  check_elf fuel map_fuel pmm process s = and_then (get_path table blank at fuel s) λ typed.
      and_then (select_path fuel typed.mem at) λ mem.
        and_then
          (create_process table blank buf dir fuel map_fuel at.fpath
            (record { mem = mem; disk = typed.disk; pmm = pmm; process = process }))
          λ (ret, m). some (launched_with typed ret m)
