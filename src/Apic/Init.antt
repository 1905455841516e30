-- ===== src/Apic/Init.antt =====
-- kernel/src/interrupts/apic/mod.rs, and the global instances of local.rs and io.rs: both controllers
-- are set up and published, and the end of an interrupt goes through the published one.
use nocciolo.Base.{ℕ, Outcome, ok, ◌>>=◌, Option, none, some, List}
use nocciolo.Memory.X86.{X86}
use nocciolo.Memory.Mapping.{Paging}
use nocciolo.Apic.Local as Local
use nocciolo.Apic.Local.{LocalApic, Memory}
use nocciolo.Apic.Io.Table.{Window, IoApic, read_entry}
use nocciolo.Apic.Setup.{MadtEntry, local_new, io_new, io_initialize}

-- The instances of the two modules; that of io.rs with the address of its end-of-interrupt word.
pub record Instances : Type 0 where
  pub local : Option LocalApic
  pub io : Option (IoApic × ℕ)

pub publish_local : LocalApic → Instances → Instances
publish_local this i = record i { local = some this }

pub publish_io : IoApic → ℕ → Instances → Instances
publish_io this eoi_addr i = record i { io = some (this, eoi_addr) }

module _ {S : Type 0} (M : Memory S) where
  pub local_id : LocalApic → S → Outcome (ℕ × S)
  local_id this s = Local.read M this Local.id s

  pub local_version : LocalApic → S → Outcome (ℕ × S)
  local_version this s = Local.read M this Local.version s

  -- The reads for the log.
  pub do_test_stuff : LocalApic → S → Outcome S
  do_test_stuff this s = do
    (_, s1) ← Local.read M this Local.lvt_timer s
    (_, s2) ← Local.read M this Local.lvt_lint0 s1
    (_, s3) ← Local.read M this Local.lvt_lint1 s2
    ok s3

  module _ (W : Window S) where
    -- `dump_debug_info`, with the published instance, if there is one.
    pub dump_debug_info : Option (IoApic × ℕ) → S → Outcome S
    dump_debug_info none s = ok s
    dump_debug_info (some (this, eoi_addr)) s = do (_, s') ← read_entry W this 2 s; ok s'

    -- The write of `end_of_interrupt`.
    pub write_end : Option (IoApic × ℕ) → S → S
    write_end none s = s
    write_end (some (this, eoi_addr)) s = M.store eoi_addr 0 s

    unfoldable pub end_of_interrupt : Option (IoApic × ℕ) → S → Outcome S
    unfolding dump_debug_info write_end
    end_of_interrupt instance_io s = do
      s1 ← dump_debug_info instance_io s
      dump_debug_info instance_io (write_end instance_io s1)

    -- `init`: the instances, the model-specific register, the page tables and the devices.
    pub init :
        (X : X86)
        → Option (List MadtEntry)
        → ℕ
        → Instances
        → Paging X
        → S
        → Outcome (Instances × ℕ × Paging X × S)
    unfolding local_id local_version do_test_stuff publish_io publish_local
    init X madt msr instances st s = do
      (local, msr', st1) ← local_new X madt msr st
      s1 ← Local.initialize M local s
      s2 ← do_test_stuff local s1
      (_, s3) ← local_id local s2
      (_, s4) ← local_version local s3
      (io, eoi_addr, st2, s5) ← io_new X W madt local st1 s4
      s6 ← io_initialize W io s5
      ok (publish_local local (publish_io io eoi_addr instances), msr', st2, s6)
