-- ===== src/Init/Start.antt =====
-- The state that the module starts in.
use reference_monitor.Base.{All, List, [], ap, arith, false, refl, some, true, ℕ, ◌≡◌}
use reference_monitor.Access.Decision.{is_active}
use reference_monitor.Base.Int.{pos}
use reference_monitor.Checks.{rf_off}
use reference_monitor.Init.{Module, init_module, set_up}
use reference_monitor.Install.{hacked_entries}
use reference_monitor.Install.Restore.{initialize_lem}
use reference_monitor.Monitor.{null, spin_lock, spin_unlock}
use reference_monitor.Password.{HashEnv, Sha256, encrypt_password, hex, holds}
use reference_monitor.Probes.Table.{ProbeApi, kprobe_array, kretprobe_init}
use reference_monitor.Run.{Returns, done}
use reference_monitor.SyscallTable.{get_entries}
use reference_monitor.Syscalls.{World}
use reference_monitor.Syscalls.Keeps.{Inv}

-- The kernel gives the memory for the digest and the digest itself.
pub record Hashed (h : HashEnv) : Type 0 where
  pub transform : h.transform ≡ true
  pub desc : h.desc ≡ true
  pub digest_buffer : h.digest_buffer ≡ true
  pub status : h.status ≡ 0
  pub result : h.result ≡ true

module _ (sha : Sha256) (api : ProbeApi) (s : List ℕ) (h : HashEnv) (w : World) where
  encrypt_lem :
      Hashed h → encrypt_password sha h (holds s) w.rf ≡ done (some (hex (sha.digest s))) w.rf
  unfolding encrypt_password
  encrypt_lem a = rw (a.transform, a.desc, a.digest_buffer, a.status, a.result)

all_disabled : All (λ p. p.disabled ≡ true) kprobe_array
unfolding kprobe_array
all_disabled = (refl, (refl, (refl, (refl, (refl, (refl, (refl, (refl, (refl, (refl, tt))))))))))

module _ (sha : Sha256) (api : ProbeApi) (s : List ℕ) (h : HashEnv) where
  set_up_lem :
      (w : World)
      → Hashed h
      → w.rf.locked ≡ false
      → set_up sha api (holds s) h true w
        ≡ done (pos 0) (record {
          rf = record w.rf {
            locked = false;
            state = pos 1;
            head = null;
            size = 0;
            password = some (hex (sha.digest s));
          };
          probes = some (api.register_kretprobes kprobe_array).0;
        })
  unfolding set_up spin_lock spin_unlock kretprobe_init
  set_up_lem w a un = rw (
    un,
    encrypt_lem sha api s h
        (record w { rf = record w.rf { locked = false; state = pos 1; head = null; size = 0 } }) a,
  )

  -- Where six free entries are found and the kernel gives all memory, the digest and a registration
  -- that keeps the probes as they are, loading the module with the password `s` returns 0. The
  -- monitor is then off with an empty list, a free lock and the password's digest, the probes are
  -- set up and disarmed, and the whole is well-formed.
  pub init_module-Inv :
      (calls : List ℕ) (m : Module) (r : List ℕ × ℕ)
      → get_entries m.kernel.table hacked_entries ≡ some r
      → Hashed h
      → m.world.rf.locked ≡ false
      → (api.register_kretprobes kprobe_array).0 ≡ kprobe_array
      → Returns
          (λ ret m'.
            (ret ≡ pos 0)
            × (m'.world.rf.state ≡ rf_off)
            × (m'.world.rf.password ≡ some (hex (sha.digest s)))
            × (m'.world.rf.size ≡ 0)
            × Inv m'.world)
          (init_module sha api calls (holds s) h true m)
  unfolding init_module is_active
  init_module-Inv calls m r e a un reg =
      rw (initialize_lem calls m.kernel r e, set_up_lem m.world a un)
        (
          refl,
          refl,
          refl,
          refl,
          record {
            cells = [];
            monitor = record {
              list = record { head = refl; chain = tt };
              unlocked = refl;
              counted = omega arith;
              fits = omega arith;
            };
            stored = hex (sha.digest s);
            password = refl;
            array = kprobe_array;
            probes = ap some reg;
            armed = all_disabled;
          },
        )
