-- ===== src/Lib.antt =====
-- Verification of the reference monitor, a Linux kernel module that refuses changes to the files
-- and directories on a list of protected paths.
--
-- The parts and how they meet. System calls, written into free entries of the kernel's system call
-- table when the module is loaded, switch the monitor's state and change the list; they ask for a
-- password and for root. Return probes on ten kernel functions look up the paths of each call in
-- the list and have the call refused and logged; the rows of the log go to a file system of one
-- file, to which a write can only append.
--
-- Which file models what (paths from the repository's root):
--   Base, Run, CString   shared names, integers and error codes; runs of kernel code that come back
--                        with a result and a state or end in a fault; C strings
--   Monitor              reference-monitor/stack_reference_monitor.h: the monitor and its nodes in
--                        memory; below it what a chain of nodes stands for, and its edits
--   Blacklist            reference-monitor/utils/blacklist.c: add_to_blacklist,
--                        remove_from_blacklist
--   Checks, DentryPath,  reference-monitor/utils/utils.c: is_rf_rec, euid_check, rf_state_check;
--   Password             get_path_from_dentry; encrypt_password, password_check
--   Access               reference-monitor/stack_reference_monitor.c: is_blacklisted, also in the two
--                        parts before and under the lock
--   Log                  reference-monitor/log/logger.c: write_on_log, up to the queued work, and
--                        deferred_work; Log.Written: the logger over the log file system
--   LogFs                log-filesystem/file.c: onefilefs_read, onefile_write; below it
--                        onefilefs_lookup with file_system.c (Mount, Driver), dir.c (Dir) and
--                        singlefilemakefs.c (MakeFs), and theorems on reads, appends, their histories
--                        and mounts
--   Probes               reference-monitor/kprobes/kprobes.c: the handlers; Probes.Table: the array
--                        of probes, enable_kprobes, disable_kprobes, kretprobe_init, kretprobe_clean
--   Syscalls             reference-monitor/stack_reference_monitor.c: the system calls, with
--                        sys_print_blacklist in Syscalls.Print; Syscalls.Call: the six calls as one;
--                        Syscalls.Histories: sequences of calls;
--                        Syscalls.Spec: what the calls promise, over a state and a set of paths
--   SyscallTable         reference-monitor/syscall-mount/scth.c: get_entries
--   Install, Init        reference-monitor/stack_reference_monitor.c: initialize_syscalls,
--                        init_module, cleanup_module, with the write protection of scth.c;
--                        Init.Served: from the loading over calls to a decision; Init.Undigested:
--                        a loading without the digest of the password
--   Client               client/client.c: change_state, get_rf_state, with the C library's syscall;
--                        Client.Calls: the other calls; Client.Getpasswd: the password editor;
--                        Client.Text, Client.Modules, Client.Home: strtok and strtol, and the two
--                        screens of main; Client.Menu: main from turn to turn; Client.Kernel: the
--                        calls of the client with the kernel's side behind them;
--                        Client.Home.Switch: the entries of the menu from the keys to the kernel
--   UserPrograms         reference-monitor/user/switch_reconfigure.c; UserPrograms.Paths: user.c and
--                        remove.c; UserPrograms.Files: open.c and log-filesystem/user.c
--   Tests                runs and theorems at concrete inputs
--
-- How the code is read. What the kernel answers (memory, copies from user space, paths, the digest,
-- the status of calls on probes) is an argument of the definition that asks for it, so a definition
-- covers failures as well; SHA-256 and the calls on probes are records of functions. A NULL or
-- dangling pointer, a read or write past a buffer, a kfree of a pointer that was never set, a lock
-- taken twice or given back when free, and a write to a protected page are faults of the run. An
-- `int` counter is its 32-bit pattern and wraps; error codes are negative integers. Lines for the
-- kernel's log, and the kfree of buffers that one call uses alone, change nothing in the model. One
-- thread runs at a time; Access.Race has a decision during which other processors change the list,
-- one change in Access.Race itself and any number of them below it.
--
-- Fuel. The walks over the list take fuel as an argument and end in `hang` when it runs out; the
-- theorems hold for every fuel above the length of the list. Every other loop is structural.
--
-- The client. A turn of main is one pass through the display of a screen and its switch; what is typed
-- and what the C library grants on the turn is its argument, and the turns that a user takes are a
-- relation. A call of the C library that is not granted leaves its error result.
--
-- Not modelled: the discoverer of the system call table, a copy of another project, with its test
-- program; what the client and the small programs print, the lines behind which the client waits for
-- a key, and what the command lines do that it hands to system. A system call table address of 0,
-- after whose message the code goes on, is left out: the table is given.
pub mod Base
pub mod Run
pub mod CString
pub mod Monitor
pub mod Blacklist
pub mod Checks
pub mod DentryPath
pub mod Password
pub mod Access
pub mod Log
pub mod Probes
pub mod Syscalls
pub mod SyscallTable
pub mod Install
pub mod Init
pub mod LogFs
pub mod Client
pub mod UserPrograms
pub mod Tests
