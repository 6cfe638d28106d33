-- ===== src/Examples/Kernels.antt =====
-- src/kernel/resolver.rs and src/kernel/kaslr.rs at concrete inputs.
use blazesym.Common.{◌≢◌, [], ◌∷◌, arith}
use blazesym.Common.Outcome.{stuck}
use blazesym.Util.Slice.{Slice, slice}
use blazesym.Elf.Types.{slice64}
use blazesym.Elf.Types.Phdr.{ElfNPhdrs}
use blazesym.Kernel.{read_kcore_kaslr_offset}
use blazesym.Kernel.Vmcoreinfo.{read_kcore_kaslr_offset-ne-stuck}

-- a note without a name and a descriptor
abbrev note : Slice
note = slice 0 (0 ∷ 0 ∷ 0 ∷ 0 ∷ 0 ∷ 0 ∷ 0 ∷ 0 ∷ 1 ∷ 0 ∷ 0 ∷ 0 ∷ [])

abbrev phdrs : ElfNPhdrs
phdrs = slice64 (
    (record {
      p_type = 4;
      p_flags = 0;
      p_offset = 0;
      p_vaddr = 0;
      p_paddr = 0;
      p_filesz = 12;
      p_memsz = 0;
      p_align = 0;
    })
    ∷ [])

read_kcore_kaslr_offset-ne-stuck_example : read_kcore_kaslr_offset phdrs note ≢ stuck
read_kcore_kaslr_offset-ne-stuck_example = read_kcore_kaslr_offset-ne-stuck phdrs note (omega arith)
