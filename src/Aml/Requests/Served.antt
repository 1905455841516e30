-- ===== src/Aml/Requests/Served.antt =====
-- A bounded number of aligned requests is served, and leaves every page translating as before.
use nocciolo.Base.{
  ℕ, zero, suc, ◌+◌, ◌*◌, ◌%◌, ◌^◌, ◌≤◌, ◌<◌, ◌≡◌, refl, ap, sym, ◌∙◌, subst, inl, inr, ok, ◌>>=◌,
  arith,
}
use nocciolo.Memory.X86.{X86, IsX86, IsPaging}
use nocciolo.Memory.Mapping.{Paging}
use nocciolo.Memory.Mapping.Region.{page_count, IsReady}
use nocciolo.Aml.Regions.{Cpu}
use nocciolo.Aml.Regions.Contents.{IsCpu, IsWidth, Restored, aml_read-contents, aml_write-changes}
use nocciolo.Aml.Requests.{Requests, finished, reads, writes, serve}

-- A value of one, two, four or eight bytes at an aligned address, well below the end of the physical
-- address space.
abbrev pub IsAligned : ℕ → ℕ → Type 0
IsAligned size address = IsWidth size × (address % size ≡ 0) × (address + size + 8192 ≤ 2 ^ 52)

page_count-aligned :
    (size address : ℕ) → IsWidth size → address % size ≡ 0 → page_count address size ≡ 1
page_count-aligned size address (inl e) h =
    ap (page_count address) e ∙ omega (arith, subst (λ s. address % s ≡ 0) e h)
page_count-aligned size address (inr (inl e)) h =
    ap (page_count address) e ∙ omega (arith, subst (λ s. address % s ≡ 0) e h)
page_count-aligned size address (inr (inr (inl e))) h =
    ap (page_count address) e ∙ omega (arith, subst (λ s. address % s ≡ 0) e h)
page_count-aligned size address (inr (inr (inr e))) h =
    ap (page_count address) e ∙ omega (arith, subst (λ s. address % s ≡ 0) e h)

-- At most so many requests, each of them aligned, whatever the reads return.
unfoldable pub Within : {R : Type 0} → ℕ → Requests R → Type 0
Within asks (finished r) = Unit
Within zero (reads size address rest) = ⊥
Within (suc asks) (reads size address rest) =
    IsAligned size address × ((value : ℕ) → Within asks (rest value))
Within zero (writes size address value rest) = ⊥
Within (suc asks) (writes size address value rest) = IsAligned size address × Within asks rest

module _ (X : X86) (x : IsX86 X) (P : IsPaging X) (C : Cpu X) (D : IsCpu X x P C) where
  -- The answers, from what stands at the physical addresses.
  unfoldable pub answered : {R : Type 0} → Requests R → C.Ram → R × C.Ram
  answered (finished r) ram = (r, ram)
  answered (reads size address rest) ram = answered (rest (D.contents size address ram)) ram
  answered (writes size address value rest) ram = answered rest (D.change size address value ram)

  pub fewer_left :
      (limit k n : ℕ) (m : X.Mapper) (st : Paging X)
      → IsReady X x P limit (k + n) st m
      → IsReady X x P limit n st m
  fewer_left limit k n m st r =
      let h = r.left in
      record {
        allocator = r.allocator;
        mapper_is = r.mapper_is;
        allocator_is = r.allocator_is;
        left = record {
          valid = h.valid;
          room = omega (arith, h.room);
          left = omega (arith, h.left);
        };
        positive = r.positive;
        aligned = r.aligned;
        fresh = r.fresh;
      }

  pub Restored-trans :
      (limit k n : ℕ) (m : X.Mapper) (st st' : Paging X) (R : Restored X x P C D limit k m st)
      → Restored X x P C D limit n R.mapper st'
      → Restored X x P C D limit n m st'
  Restored-trans limit k n m st st' R T = record {
    mapper = T.mapper;
    ready = T.ready;
    pages = λ q page. T.pages q page ∙ R.pages q page;
  }

  -- What serving requests leaves.
  abbrev pub Serves : {R : Type 0} → ℕ → ℕ → ℕ → Requests R → Paging X → X.Mapper → C.Ram → Type 0
  Serves limit n asks requests st m ram =
      (st' : Paging X) × (serve X C requests st ram
        ≡ ok ((answered requests ram).0, st', (answered requests ram).1))
      × Restored X x P C D limit n m st'
      × (st.next_page ≤ st'.next_page)
      × (st'.next_page ≤ st.next_page + asks * 4096)

  -- After a first request.
  Serves-suc :
      {R : Type 0} (limit k n asks : ℕ) (requests first : Requests R) (st st1 : Paging X)
      (m : X.Mapper) (ram ram1 : C.Ram) (T : Restored X x P C D limit k m st1)
      → st1.next_page ≡ st.next_page + 4096
      → serve X C first st ram ≡ serve X C requests st1 ram1
      → answered first ram ≡ answered requests ram1
      → Serves limit n asks requests st1 T.mapper ram1
      → Serves limit n (suc asks) first st m ram
  Serves-suc limit k n asks requests first st st1 m ram ram1 T next same answers
        (st', run, S, low, high) =
      (
        st',
        same ∙ run ∙ ap (λ a. ok (a.0, st', a.1)) (sym answers),
        Restored-trans limit k n m st1 st' T S,
        omega (arith, next, low),
        omega (arith, next, high),
      )

  pub serve-Serves :
      {R : Type 0} (limit n asks : ℕ) (requests : Requests R) (st : Paging X) (m : X.Mapper)
      (ram : C.Ram)
      → Within asks requests
      → st.next_page + asks * 4096 ≤ limit
      → limit + 4096 < 2 ^ 47
      → IsReady X x P limit (asks * 3 + n) st m
      → Serves limit n asks requests st m ram
  unfolding serve answered Within
  serve-Serves limit n asks (finished r) st m ram w room bound ready = (
    st,
    refl,
    record { mapper = m; ready = fewer_left limit (asks * 3) n m st ready; pages = λ q page. refl },
    omega arith,
    omega arith,
  )
  serve-Serves limit n zero (reads size address rest) st m ram w room bound ready = absurd w
  serve-Serves limit n (suc asks) (reads size address rest) st m ram ((width, even, low), w) room
        bound ready =
      let one = page_count-aligned size address width even in
      let (st1, run, T, next) =
        aml_read-contents X x P C D size address limit (asks * 3 + n) st m ram width even low
          (omega (arith, one)) bound
          (subst (λ j. IsReady X x P limit j st m) (omega (arith, one)) ready) in
      let value = D.contents size address ram in
      let moved : st1.next_page ≡ st.next_page + 4096 = omega (arith, next, one) in
      Serves-suc limit (asks * 3 + n) n asks (rest value) (reads size address rest) st st1 m ram ram
        T moved (ap (λ o. o >>= λ a. serve X C (rest a.0) a.1 ram) run) refl
        (serve-Serves limit n asks (rest value) st1 T.mapper ram (w value) (omega (arith, moved))
          bound T.ready)
  serve-Serves limit n zero (writes size address value rest) st m ram w room bound ready = absurd w
  serve-Serves limit n (suc asks) (writes size address value rest) st m ram ((width, even, low), w)
        room bound ready =
      let one = page_count-aligned size address width even in
      let (st1, run, T, next) =
        aml_write-changes X x P C D size address value limit (asks * 3 + n) st m ram width even low
          (omega (arith, one)) bound
          (subst (λ j. IsReady X x P limit j st m) (omega (arith, one)) ready) in
      let ram1 = D.change size address value ram in
      let moved : st1.next_page ≡ st.next_page + 4096 = omega (arith, next, one) in
      Serves-suc limit (asks * 3 + n) n asks rest (writes size address value rest) st st1 m ram ram1
        T moved (ap (λ o. o >>= λ a. serve X C rest a.1 a.0) run) refl
        (serve-Serves limit n asks rest st1 T.mapper ram1 w (omega (arith, moved)) bound T.ready)
