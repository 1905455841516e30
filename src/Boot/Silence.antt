-- ===== src/Boot/Silence.antt =====
-- The redirection table that `IOApic::initialize` leaves, the descriptor table and the countdown of
-- `kernel_main` together.
mod Examples
use nocciolo.Base.{
  ℕ, zero, suc, ◌+◌, ◌*◌, ◌%◌, ◌^◌, ◌<◌, ◌≤◌, ◌≡◌, refl, sym, ap, ◌∙◌, subst, Bool, Outcome, ok,
  Option, none, some, arith,
}
use nocciolo.Apic.Io.Table.{Window, IoApic, map_all_to_spurious_vectors}
use nocciolo.Apic.Io.Table.Registers.{IsRegisterFile}
use nocciolo.Apic.Io.Table.Mapped.{
  StoresEntries, HasMode, IsSpurious, MappedFrom, low, map_all-MappedFrom,
}
use nocciolo.Interrupts.{Platform, Kernel, returns}
use nocciolo.Interrupts.Handlers.Idt.{Handler, Arrival, handle, idt}
use nocciolo.Interrupts.Handlers.Idt.Spurious.{spurious-Keeps}
use nocciolo.Boot.{countdown}
use nocciolo.Boot.Ready.{countdown-waits}

ok-injective : {A : Type 0} (a b : A) → ◌≡◌ {A = Outcome A} (ok a) (ok b) → a ≡ b
ok-injective a b same = cc

module _ (Q : Platform) (is_general : ℕ → Bool) (this : IoApic)
    (few : this.redirection_entry_count ≤ 120) (R : IsRegisterFile Q.window)
    (Z : StoresEntries Q.window R) where
  -- An interrupt that entry `index` of the table in `table` sends, from one state to the next.
  pub record Sent (table : Q.Devices) (k k' : Kernel Q) : Type 0 where
    pub index : ℕ
    pub inside : index < this.redirection_entry_count
    pub arrival : Arrival
    pub handler : Handler
    pub stands : idt is_general (low Q.window R Z table index % 2 ^ 8) ≡ some handler
    pub runs : handle Q handler arrival k ≡ returns tt k'

  Sent-timer :
      (before table : Q.Devices) (k k' : Kernel Q)
      → MappedFrom Q.window R Z this few 0 before table
      → Sent table k k'
      → k'.timer ≡ k.timer
  Sent-timer before table k k' mapped sent =
      let entry = mapped.entries sent.index (omega arith) sent.inside in
      let at = ap (idt is_general) (sym entry.vector) ∙ sent.stands in
      (spurious-Keeps Q is_general sent.arrival sent.handler k k' at sent.runs).0

  -- What comes between two reads of the uptime, in order: interrupts that entries of the table send,
  -- and code of the task, which writes no timer; or nothing.
  pub data Between (table : Q.Devices) : Kernel Q → Kernel Q → Type 0 where
    nothing : {k : Kernel Q} → Between table k k
    own : {k k1 k' : Kernel Q} → k1.timer ≡ k.timer → Between table k1 k' → Between table k k'
    interrupt : {k k1 k' : Kernel Q} → Sent table k k1 → Between table k1 k' → Between table k k'

  Between-timer :
      (before table : Q.Devices) (k k' : Kernel Q)
      → MappedFrom Q.window R Z this few 0 before table
      → Between table k k'
      → k'.timer ≡ k.timer
  Between-timer before table k k' mapped nothing = refl
  Between-timer before table k k' mapped (own {k1 = k1} same rest) =
      Between-timer before table k1 k' mapped rest ∙ same
  Between-timer before table k k' mapped (interrupt {k1 = k1} sent rest) =
      Between-timer before table k1 k' mapped rest ∙ Sent-timer before table k k1 mapped sent

  timer_still :
      (before table : Q.Devices) (kernels : ℕ → Kernel Q)
      → MappedFrom Q.window R Z this few 0 before table
      → ((i : ℕ) → Between table (kernels i) (kernels (suc i)))
      → (i : ℕ) → (kernels i).timer ≡ (kernels 0).timer
  timer_still before table kernels mapped sent zero = refl
  timer_still before table kernels mapped sent (suc i) =
      Between-timer before table (kernels i) (kernels (suc i)) mapped (sent i)
      ∙ timer_still before table kernels mapped sent i

  -- Once the entries of the I/O APIC, at most 120 and in modes that the manual defines, are mapped
  -- to the spurious vector, on a device that stores what is written to them, and with an end of a
  -- sleep of a second that fits 64 bits, the countdown of the kernel does not end, however often it
  -- reads the uptime: where between two reads come any number of interrupts, each from an entry and
  -- with a handler that returns, and code of the task that writes no timer.
  pub countdown-silent :
      (before table : Q.Devices) (kernels : ℕ → Kernel Q) (n rounds : ℕ)
      → ((i : ℕ) → i < this.redirection_entry_count → HasMode (low Q.window R Z before i))
      → map_all_to_spurious_vectors Q.window this before ≡ ok table
      → ((i : ℕ) → Between table (kernels i) (kernels (suc i)))
      → (kernels 0).timer + 1000 < 2 ^ 64
      → countdown (suc n) rounds (λ i. (kernels i).timer) ≡ ok none
  countdown-silent before table kernels n rounds modes maps sent fits =
      let (table', run, mapped) = map_all-MappedFrom Q.window R Z this few before modes in
      let same : table' ≡ table = ok-injective table' table (sym run ∙ maps) in
      let mapped' = subst (MappedFrom Q.window R Z this few 0 before) same mapped in
      countdown-waits n rounds (λ i. (kernels i).timer)
        (timer_still before table kernels mapped' sent) fits
