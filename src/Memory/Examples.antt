-- ===== src/Memory/Examples.antt =====
-- Runs of the frame allocator and of the mapping on a machine whose page table is a function.
use nocciolo.Base.{ℕ, ◌%◌, ◌≡◌, ok, Option, none, arith, List, All, Pairs}
use nocciolo.Memory.Frames.{BootInfoFrameAllocator}
use nocciolo.Memory.Frames.Runs.{IsUsable, ApartFrames, allocate_frames, allocate_frames-Apart}
use nocciolo.Memory.Mapping.{Paging, PhysicalMapping, map_physical_region, unmap_physical_region}
use nocciolo.Memory.Mapping.Region.{IsReady, Maps, map_physical_region-Maps}
use nocciolo.Memory.Mapping.Unmap.{map_unmap}
use nocciolo.Memory.Machine.{
  machine, machine-IsX86, machine-IsPaging, memory_map, memory_map-IsMemoryMap, boot_frames,
  ready_state, ready_state-IsReady,
}

allocate_frames-Apart_example :
    (frames : List ℕ) × (this' : BootInfoFrameAllocator) × (allocate_frames machine machine-IsX86 9
        boot_frames
      ≡ ok (frames, this'))
    × All (IsUsable memory_map) frames
    × Pairs ApartFrames frames
allocate_frames-Apart_example =
    allocate_frames-Apart machine machine-IsX86 9 boot_frames memory_map-IsMemoryMap (omega arith)

-- Two pages hold the 32 bytes at 0x5FF0.
map_physical_region-Maps_example :
    (region : PhysicalMapping) × (st' : Paging machine) × (map_physical_region machine 0x5FF0 32
        ready_state
      ≡ ok (region, st'))
    × Maps machine machine-IsX86 machine-IsPaging 0x444444440000 0x5FF0 32 1 ready_state
        (λ q. none)
        region
        st'
map_physical_region-Maps_example =
    map_physical_region-Maps machine machine-IsX86 machine-IsPaging 0x444444440000 0x5FF0 32 1
      ready_state (λ q. none) (omega arith) (omega arith) (omega arith) (omega arith)
      ready_state-IsReady

map_unmap_example :
    (region : PhysicalMapping) × (st' : Paging machine) × (st'' : Paging machine) × (m'' : ℕ
      → Option ℕ)
    × (map_physical_region machine 0x5FF0 32 ready_state ≡ ok (region, st'))
    × Maps machine machine-IsX86 machine-IsPaging 0x444444440000 0x5FF0 32 1 ready_state
        (λ q. none)
        region
        st'
    × (unmap_physical_region machine region st' ≡ ok st'')
    × IsReady machine machine-IsX86 machine-IsPaging 0x444444440000 1 st'' m''
    × (st''.next_page ≡ 0x1000002000)
    × ((q : ℕ) → q % 4096 ≡ 0 → m'' q ≡ none)
map_unmap_example =
    map_unmap machine machine-IsX86 machine-IsPaging 0x444444440000 0x5FF0 32 1 ready_state
      (λ q. none) (omega arith) (omega arith) (omega arith) (omega arith) ready_state-IsReady
