-- ===== src/Kernel/Vmcoreinfo.antt =====
-- That the loops of `read_kcore_kaslr_offset` (src/kernel/kaslr.rs) end.
use mathlib.Core.Path.{subst}
use blazesym.Common.{
  ℕ, zero, suc, ◌+◌, ◌%◌, ◌^◌, ◌≤◌, ◌<◌, ◌≡◌, ◌≢◌, ◌⊎◌, refl, Bool, true, false, ◌&&◌, not, Option,
  none, some, List, [], ◌∷◌, arith, leb, ◌==◌, if◌then◌else◌, length, Bool-cases, inl, inr,
}
use blazesym.Common.Outcome.{Outcome, ok, err, stuck, ok-injective, ◌>>=◌}
use blazesym.Util.Order.{bytes_eq}
use blazesym.Util.Slice.{Slice, field}
use blazesym.Elf.Types.{iter}
use blazesym.Elf.Types.Phdr
use blazesym.Elf.Types.Phdr.{ElfNPhdr, ElfNPhdrs}
use blazesym.Kernel.{
  Step, finished, go_on, read_note, align_up_u32, read_exact, kernel_offset, parse_vmcoreinfo_desc,
  vmcoreinfo_name, note_name, scan_notes, pt_note, scan_segments, read_kcore_kaslr_offset,
}
use blazesym.Kernel.Returns.{
  Returns, Returns→ne-stuck, >>=-Returns, read_exact-Returns, read_exact-le, if-Returns,
  kernel_offset-Returns, align_up_u32-lt, note_name-Returns,
}

-- a round that goes on does so behind the header of the note, and not far behind the file's end
abbrev IsAhead : (offset bound : ℕ) → Step → Type 0
IsAhead offset bound (finished found) = Unit
IsAhead offset bound (go_on next) = (offset + 12 ≤ next) × (next ≤ bound + 2 ^ 33)

abbrev AllSteps : (offset bound : ℕ) → Outcome Step → Type 0
AllSteps offset bound m = Returns m × ((step : Step) → m ≡ ok step → IsAhead offset bound step)

>>=-AllSteps :
    {A : Type 0} (offset bound : ℕ) (m : Outcome A) (rest : A → Outcome Step)
    → Returns m
    → ((a : A) → m ≡ ok a → AllSteps offset bound (rest a))
    → AllSteps offset bound (m >>= rest)
>>=-AllSteps offset bound (ok a) rest h k = k a refl
>>=-AllSteps offset bound (err e) rest h k = (tt, λ step q. cc)
>>=-AllSteps offset bound stuck rest h k = absurd h

finished-AllSteps :
    (offset bound : ℕ) (m : Outcome (Option ℕ))
    → Returns m
    → AllSteps offset bound (m >>= λ found. ok (finished found))
finished-AllSteps offset bound m h =
    >>=-AllSteps offset bound m (λ found. ok (finished found)) h (λ found e. done found)
  where
    done : (found : Option ℕ) → AllSteps offset bound (ok (finished found))
    done found = (tt, λ step q. subst (IsAhead offset bound) (ok-injective q) tt)

if-AllSteps :
    (offset bound : ℕ) (b : Bool) (m n : Outcome Step)
    → AllSteps offset bound m
    → AllSteps offset bound n
    → AllSteps offset bound (if b then m else n)
if-AllSteps offset bound true m n h k = h
if-AllSteps offset bound false m n h k = k

read_note-AllSteps :
    (offset : ℕ) (file : Slice) → AllSteps offset (length file.bytes) (read_note offset file)
unfolding read_note
read_note-AllSteps offset file =
    >>=-AllSteps offset (length file.bytes) (read_exact offset 12 file) _
      (read_exact-Returns offset 12 file)
      (λ nhdr e.
        >>=-AllSteps offset (length file.bytes) (note_name (offset + 12) (field 0 4 nhdr) file) _
          (note_name-Returns (offset + 12) (field 0 4 nhdr) file)
          (λ name e'.
            let namesz = field 0 4 nhdr in
            let descsz = field 4 4 nhdr in
            let desc_offset = offset + 12 + align_up_u32 namesz 4 in
            if-AllSteps offset (length file.bytes)
              (bytes_eq name vmcoreinfo_name && not (descsz == 0))
              (read_exact desc_offset descsz file >>= λ desc.
                kernel_offset (parse_vmcoreinfo_desc desc) >>= λ found. ok (finished found))
              (ok (go_on (desc_offset + align_up_u32 descsz 4)))
              (>>=-AllSteps offset (length file.bytes) (read_exact desc_offset descsz file) _
                (read_exact-Returns desc_offset descsz file)
                (λ desc q.
                  finished-AllSteps offset (length file.bytes)
                    (kernel_offset (parse_vmcoreinfo_desc desc))
                    (kernel_offset-Returns (parse_vmcoreinfo_desc desc))))
              (
                tt,
                λ step q.
                    subst (IsAhead offset (length file.bytes)) (ok-injective q)
                      (ahead namesz descsz (read_exact-le offset 12 file nhdr e)),
              )))
  where
    ahead :
        (namesz descsz : ℕ)
        → offset + 12 ≤ length file.bytes
        → IsAhead offset
            (length file.bytes)
            (go_on (offset + 12 + align_up_u32 namesz 4 + align_up_u32 descsz 4))
    ahead namesz descsz le =
        (omega arith, omega (arith, le, align_up_u32-lt namesz, align_up_u32-lt descsz))

-- rounds are left for what is left of the segment, or the offset is far from wrapping
abbrev HasRounds : (fuel offset file_size : ℕ) → Type 0
HasRounds fuel offset file_size =
    (file_size < fuel + offset) × ((1 ≤ fuel) ⊎ (offset + 12 < 2 ^ 64))

scan_notes-Returns :
    (fuel offset file_size : ℕ) (file : Slice)
    → length file.bytes < 2 ^ 63
    → HasRounds fuel offset file_size
    → Returns (scan_notes fuel offset file_size file)
unfolding scan_notes
scan_notes-Returns zero offset file_size file small (enough, room) =
    let near : offset + 12 < 2 ^ 64 = elim room [
      | inl none_left ↦ absurd (omega (arith, none_left))
      | inr far ↦ far
    ] in
    let t : leb ((offset + 12) % 2 ^ 64) file_size ≡ false = lt→leb (omega (arith, near, enough)) in
    rw (t, scan_notes) tt
  where
    lt→leb : {a b : ℕ} → b < a → leb a b ≡ false
    lt→leb h = ground (arith, h)
scan_notes-Returns (suc fuel) offset file_size file small (enough, room) =
    elim (Bool-cases (leb ((offset + 12) % 2 ^ 64) file_size)) [
      | inr t ↦ rw (t, scan_notes) tt
      | inl t ↦
          let (returns, steps) = read_note-AllSteps offset file in
          rw (t, scan_notes)
            (>>=-Returns (read_note offset file) _ returns (λ step e.
              next step (steps step e)
                (λ far has. scan_notes-Returns fuel far file_size file small has)))
    ]
  where
    next :
        (step : Step)
        → IsAhead offset (length file.bytes) step
        → ((far : ℕ) → HasRounds fuel far file_size → Returns (scan_notes fuel far file_size file))
        → Returns (elim step [
          | finished found ↦ ok found
          | go_on far ↦ scan_notes fuel far file_size file
        ])
    next (finished found) ahead ih = tt
    next (go_on far) (behind, bound) ih =
        ih far (omega (arith, enough, behind), inr (omega (arith, bound, small)))

scan_segments-Returns :
    (phdrs : List ElfNPhdr) (file : Slice)
    → length file.bytes < 2 ^ 63
    → Returns (scan_segments phdrs file)
unfolding scan_segments
scan_segments-Returns [] file small = tt
scan_segments-Returns (phdr ∷ phdrs) file small =
    let rest = scan_segments-Returns phdrs file small in
    let scanned =
      scan_notes (suc (Phdr.file_size phdr)) (Phdr.offset phdr) (Phdr.file_size phdr) file in
    if-Returns (not (Phdr.type_of phdr == pt_note)) (scan_segments phdrs file)
      (scanned >>= λ found. elim found [
        | none ↦ scan_segments phdrs file
        | some offset ↦ ok (some offset)
      ])
      rest
      (>>=-Returns scanned _
        (scan_notes-Returns (suc (Phdr.file_size phdr)) (Phdr.offset phdr) (Phdr.file_size phdr)
          file small (omega arith, inl (omega arith)))
        (λ found e. or_rest found rest))
  where
    or_rest :
        (found : Option ℕ)
        → Returns (scan_segments phdrs file)
        → Returns (elim found [ none ↦ scan_segments phdrs file | some offset ↦ ok (some offset) ])
    or_rest none rest = rest
    or_rest (some offset) rest = tt

-- For a file of less than 2^63 bytes the search of the notes of its segments for the offset of the
-- kernel ends, with a result or an error: the rounds that the loop over a segment's notes is given
-- suffice.
pub read_kcore_kaslr_offset-ne-stuck :
    (phdrs : ElfNPhdrs) (file : Slice)
    → length file.bytes < 2 ^ 63
    → read_kcore_kaslr_offset phdrs file ≢ stuck
unfolding read_kcore_kaslr_offset
read_kcore_kaslr_offset-ne-stuck phdrs file small =
    Returns→ne-stuck (read_kcore_kaslr_offset phdrs file)
      (scan_segments-Returns (iter phdrs 0) file small)
