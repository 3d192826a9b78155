-- ===== src/Kernel/Page/Tests.antt =====
-- page_set and page_get at a space whose page tables all exist.
use rhombus.Prelude.{◌/◌, ◌≡◌, refl, some, inl, ◌==◌, leb, arith, if◌then◌else◌}
use rhombus.Kernel.Frame.{page_size}
use rhombus.Kernel.Frame.Tests.{taken}
use rhombus.Kernel.Page.{Space, page_get, page_set}
use rhombus.Kernel.Page.Get.{page_set_lem}

-- One page, at 0x100000, is mapped: to the frame at 0x800000. Every page table exists.
abbrev pub mapped : Space
mapped = record {
  frames = taken;
  table = λ i. if i == 0x100 then 0x800007 else if leb 0xFFC00 i then 7 else 0;
}

pub mapped-entry : page_get mapped 0x100000 ≡ 0x800007
unfolding page_get
mapped-entry = refl

page_set_lem_example :
    (s' : Space) × (page_set mapped 0x200000 0x900007 ≡ some s')
    × (page_get s' 0x100000 ≡ (
        if 0x100000 / page_size == 0x200000 / page_size
        then 0x900007
        else page_get mapped 0x100000))
page_set_lem_example =
    page_set_lem mapped 0x200000 0x900007 (omega arith) (inl refl) 0x100000 (omega arith)
