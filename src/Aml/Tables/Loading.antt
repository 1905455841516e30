-- ===== src/Aml/Tables/Loading.antt =====
-- Loading gives the interpreter what the tables hold, in order and up to the first error, serves its
-- requests, and leaves the page tables as they were.
pub mod Examples
use nocciolo.Base.{
  ℕ, zero, suc, ◌+◌, ◌-◌, ◌*◌, ◌/◌, ◌%◌, ◌^◌, ◌≤◌, ◌<◌, ◌≡◌, refl, ap, subst, ◌∙◌, Outcome, ok,
  ◌>>=◌, List, [], ◌∷◌, All, arith, String,
}
use nocciolo.Memory.X86.{X86, IsX86, IsPaging}
use nocciolo.Memory.Mapping.{Paging, map_physical_region, unmap_physical_region}
use nocciolo.Memory.Mapping.Region.{page_count, IsReady, Maps, map_physical_region-Maps}
use nocciolo.Memory.Mapping.Unmap.{unmap_later}
use nocciolo.Power.Firmware.{Result, val, err}
use nocciolo.Aml.Regions.{Cpu}
use nocciolo.Aml.Regions.Contents.{IsCpu, Restored}
use nocciolo.Aml.Requests.{Requests, serve}
use nocciolo.Aml.Requests.Served.{Within, answered, fewer_left, Restored-trans, serve-Serves}
use nocciolo.Aml.Tables.{
  AmlTable, Interpreter, DeviceError, in_region, get_dsdt, Loaded, parse_table, go_on, parse_tables,
  load_from, load_acpi,
}

-- The pages that hold a table.
abbrev pub table_pages : AmlTable → ℕ
table_pages table = page_count table.address table.length

-- A table with bytes, well below the end of the physical address space.
abbrev pub IsTable : AmlTable → Type 0
IsTable table = (0 < table.length) × (table.address + table.length + 8192 ≤ 2 ^ 52)

-- The pages that loading maps, with so many requests for each table.
abbrev pub pages_of : ℕ → List AmlTable → ℕ
pages_of asks [] = 0
pages_of asks (table ∷ tables) = table_pages table + asks + pages_of asks tables

module _ (I : Interpreter) (X : X86) (x : IsX86 X) (P : IsPaging X) (C : Cpu X)
    (D : IsCpu X x P C) where
  -- The result of the interpreter, its context, and memory.
  abbrev pub Folded : Type 0
  Folded = (Result (Unit {0}) I.AmlError × I.AmlContext) × C.Ram

  -- The run of the interpreter on a table as it stands in memory.
  abbrev pub run_of :
      AmlTable → I.AmlContext → C.Ram → Requests (Result (Unit {0}) I.AmlError × I.AmlContext)
  run_of table context ram =
      I.parse_table context table.length (D.contents table.length table.address ram)

  pub fold_table : AmlTable → I.AmlContext → C.Ram → Folded
  fold_table table context ram = answered X x P C D (run_of table context ram) ram

  -- The tables in turn, up to the first error.
  pub fold_next : Folded → Folded → Folded
  fold_next ((err e, context), ram) rest = ((err e, context), ram)
  fold_next ((val _, context), ram) rest = rest

  pub fold_tables : List AmlTable → I.AmlContext → C.Ram → Folded
  unfolding fold_table fold_next
  fold_tables [] context ram = ((val tt, context), ram)
  fold_tables (table ∷ tables) context ram =
      let ((result, context'), ram') = fold_table table context ram in
      fold_next ((result, context'), ram') (fold_tables tables context' ram')

  -- Each table in turn makes at most so many requests of memory, each of them aligned.
  pub Asks : ℕ → List AmlTable → I.AmlContext → C.Ram → Type 0
  unfolding fold_table
  Asks asks [] context ram = Unit
  Asks asks (table ∷ tables) context ram =
      let ((result, context'), ram') = fold_table table context ram in
      Within asks (run_of table context ram) × Asks asks tables context' ram'

  -- What a step leaves, with the interpreter and memory as given.
  abbrev pub leaves : Folded → Paging X → Loaded I X C
  leaves ((result, context), ram) st = record {
    result = in_region I result "parse_table";
    context = context;
    paging = st;
    memory = ram;
  }

  -- A run that loads: its result, and the page tables as they were.
  abbrev pub Loads : ℕ → ℕ → X.Mapper → Outcome (Loaded I X C) → Folded → Type 0
  Loads limit n m run folded =
      (st' : Paging X) × (run ≡ ok (leaves folded st')) × Restored X x P C D limit n m st'

  -- What follows when the bytes are read.
  abbrev parsed :
      AmlTable
      → I.AmlContext
      → C.Ram
      → Paging X
      → ℕ
      → ℕ
      → Outcome ((Result (Unit {0}) I.AmlError × I.AmlContext) × Paging X × C.Ram)
  parsed table context ram st size bytes = serve X C (I.parse_table context size bytes) st ram

  pub parse_table-contents :
      (limit n asks : ℕ) (table : AmlTable) (context : I.AmlContext) (st : Paging X) (m : X.Mapper)
      (ram : C.Ram)
      → IsTable table
      → Within asks (run_of table context ram)
      → st.next_page + (table_pages table + asks) * 4096 ≤ limit
      → limit + 4096 < 2 ^ 47
      → IsReady X x P limit ((table_pages table + asks) * 3 + n) st m
      → (st' : Paging X) × (parse_table I X C table context st ram
          ≡ ok (leaves (fold_table table context ram) st'))
        × Restored X x P C D limit n m st'
        × (st'.next_page ≤ st.next_page + (table_pages table + asks) * 4096)
  unfolding parse_table fold_table
  parse_table-contents limit n asks table context st m ram (some_bytes, low) w room bound r =
      let enough : IsReady X x P limit (table_pages table * 3 + (asks * 3 + n)) st m =
        subst (λ j. IsReady X x P limit j st m) (omega arith) r in
      let (region, st', mapped, M) =
        map_physical_region-Maps X x P limit table.address table.length (asks * 3 + n) st m
          some_bytes low (omega arith) (omega arith) enough in
      let value =
        D.load-mapped st' M.mapper table.length region.virtual_start table.address ram
          M.ready.mapper_is M.bytes in
      let (st2, served, R, after, before) =
        serve-Serves X x P C D limit n asks (run_of table context ram) st' M.mapper ram w
          (omega (arith, M.next_page)) bound M.ready in
      let (st3, m3, unmapped, ready, next, pages) =
        unmap_later X x P limit table.address table.length (asks * 3 + n) n st st' st2 m R.mapper
          region (table_pages table * 3 + (asks * 3 + n)) M enough (omega arith) bound R.ready after
          R.pages in
      let same =
        ap (λ size. parsed table context ram st' size (C.load st' size region.virtual_start ram))
          M.region_length
        ∙ ap (parsed table context ram st' table.length) value in
      (
        st3,
        rw (mapped, same, served, unmapped) refl,
        record { mapper = m3; ready = ready; pages = pages },
        omega (arith, next, before, M.next_page),
      )

  go_on-Loads :
      (limit k n : ℕ) (m : X.Mapper) (tables : List AmlTable) (first : Folded) (st : Paging X)
      (R : Restored X x P C D limit (k + n) m st)
      → Loads limit n R.mapper
          (parse_tables I X C tables first.0.1 st first.1)
          (fold_tables tables first.0.1 first.1)
      → Loads limit n m
          (go_on I X C
            (λ context' st' ram'. parse_tables I X C tables context' st' ram')
            (leaves first st).result
            (leaves first st))
          (fold_next first (fold_tables tables first.0.1 first.1))
  unfolding go_on fold_next in_region
  go_on-Loads limit k n m tables ((err e, context), ram) st R rest = (
    st,
    refl,
    record {
      mapper = R.mapper;
      ready = fewer_left X x P C D limit k n R.mapper st R.ready;
      pages = R.pages;
    },
  )
  go_on-Loads limit k n m tables ((val tt, context), ram) st R (st', run, T) =
      (st', run, Restored-trans X x P C D limit (k + n) n m st st' R T)

  pub parse_tables-contents :
      (limit n asks : ℕ) (tables : List AmlTable) (context : I.AmlContext) (st : Paging X)
      (m : X.Mapper) (ram : C.Ram)
      → All IsTable tables
      → Asks asks tables context ram
      → st.next_page + pages_of asks tables * 4096 ≤ limit
      → limit + 4096 < 2 ^ 47
      → IsReady X x P limit (pages_of asks tables * 3 + n) st m
      → Loads limit n m (parse_tables I X C tables context st ram) (fold_tables tables context ram)
  unfolding parse_tables fold_tables in_region Asks
  parse_tables-contents limit n asks [] context st m ram are w room bound r = (
    st,
    refl,
    record {
      mapper = m;
      ready = subst (λ j. IsReady X x P limit j st m) (omega arith) r;
      pages = λ q page. refl;
    },
  )
  parse_tables-contents limit n asks (table ∷ tables) context st m ram are w room bound r =
      let k = pages_of asks tables * 3 in
      let enough : IsReady X x P limit ((table_pages table + asks) * 3 + (k + n)) st m =
        subst (λ j. IsReady X x P limit j st m) (omega arith) r in
      let (st1, run, R, next) =
        parse_table-contents limit (k + n) asks table context st m ram are.0 w.0 (omega arith) bound
          enough in
      let first = fold_table table context ram in
      let rest =
        parse_tables-contents limit n asks tables first.0.1 st1 R.mapper first.1 are.1 w.1
          (omega (arith, next)) bound R.ready in
      let (st', done, T) = go_on-Loads limit k n m tables first st1 R rest in
      (
        st',
        ap (λ o. o >>= λ l. go_on I X C (λ c s a. parse_tables I X C tables c s a) l.result l) run
            ∙ done,
        T,
      )

  -- With a DSDT and SSDTs that hold bytes, at most so many memory requests by the interpreter for
  -- each table, all of them aligned, the frames for the pages of the tables and of the requests
  -- left and the pages up to a limit free, load_acpi returns: the interpreter was given each table
  -- as it stands in memory and each value that it reads, in order and up to the first error, which
  -- is the result, what it writes is in memory, every page translates as before and the statics are
  -- ready for more.
  pub load_acpi-contents :
      (limit n asks : ℕ) (dsdt : AmlTable) (ssdts : List AmlTable) (context : I.AmlContext)
      (st : Paging X) (m : X.Mapper) (ram : C.Ram)
      → All IsTable (dsdt ∷ ssdts)
      → Asks asks (dsdt ∷ ssdts) context ram
      → st.next_page + pages_of asks (dsdt ∷ ssdts) * 4096 ≤ limit
      → limit + 4096 < 2 ^ 47
      → IsReady X x P limit (pages_of asks (dsdt ∷ ssdts) * 3 + n) st m
      → Loads limit n m
          (load_acpi I X C (val dsdt) ssdts context st ram)
          (fold_tables (dsdt ∷ ssdts) context ram)
  unfolding load_acpi get_dsdt load_from
  load_acpi-contents limit n asks dsdt ssdts context st m ram are w room bound r =
      parse_tables-contents limit n asks (dsdt ∷ ssdts) context st m ram are w room bound r
