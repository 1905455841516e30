-- ===== src/Aml/Regions/Examples.antt =====
-- A dword that AML code reads, on a machine whose memory is a function from addresses to bytes.
use nocciolo.Base.{◌%◌, ◌≡◌, refl, inl, inr, ok, none, arith}
use nocciolo.Memory.Mapping.{Paging}
use nocciolo.Memory.Machine.{
  machine, machine-IsX86, machine-IsPaging, ready_state, ready_state-IsReady,
}
use nocciolo.Aml.Regions.{aml_read}
use nocciolo.Aml.Regions.Contents.{Restored, aml_read-contents}
use nocciolo.Aml.Regions.Processor.{cpu, cpu-IsCpu}

-- Four bytes at the end of a page, each the low byte of its address.
aml_read-contents_example :
    (st' : Paging machine) × (aml_read machine cpu 4 0x5FFC ready_state (λ a. a % 256)
      ≡ ok (0xFFFEFDFC, st'))
    × Restored machine machine-IsX86 machine-IsPaging cpu cpu-IsCpu 0x444444440000 4 (λ q. none) st'
    × (st'.next_page ≡ 0x1000001000)
unfolding cpu-IsCpu
aml_read-contents_example =
    aml_read-contents machine machine-IsX86 machine-IsPaging cpu cpu-IsCpu 4 0x5FFC 0x444444440000 4
      ready_state (λ q. none) (λ a. a % 256) (inr (inr (inl refl))) refl (omega arith) (omega arith)
      (omega arith) ready_state-IsReady
