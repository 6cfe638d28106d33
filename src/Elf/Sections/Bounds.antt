-- ===== src/Elf/Sections/Bounds.antt =====
-- What `section_data_raw` and `section_data` of src/elf/parser.rs read.
use blazesym.Common.{
  ℕ_discrete, [], ℕ, ◌+◌, ◌*◌, ◌^◌, ◌≤◌, ◌<◌, ◌≡◌, ◌≢◌, ◌⊎◌, refl, ap, ◌∙◌, true, false, List,
  arith, length, take, drop, length-drop, leb, ltb, ltb→lt, ltb→le, leb→le, ◌==◌, ==_iff, ne→==,
  Bool-cases, inl, inr, bit_and,
}
use blazesym.Common.Outcome.{Outcome, ok, err, stuck, >>=-cong, ◌>>=◌, invalid_data}
use blazesym.Util.Slice.{
  Slice, slice, get_from, read_pod_slice_ref, read_slice, ensure, align_offset, usize_max,
}
use blazesym.Elf.Types.{sht_nobits, shf_compressed}
use blazesym.Elf.Types.Shdr
use blazesym.Elf.Types.Shdr.{ElfNShdr}
use blazesym.Elf.Backend.{read_pod_slice}
use blazesym.Elf.Sections.{
  section_hdr, header_data, section_data_raw, section_contents, section_data,
}

leb→lt : (a b : ℕ) → leb a b ≡ false → b < a
leb→lt a b h = ground (arith, h)

any_aligned : (addr : ℕ) → (align_offset addr 1 == 0) ≡ true
any_aligned addr = ground arith

-- reading bytes at an offset: behind the end it panics, and across the end it fails
abbrev pub IsRead : Slice → (offset count : ℕ) → Outcome Slice → Type 0
IsRead mmap offset count outcome =
    ((length mmap.bytes < offset) × (outcome ≡ stuck))
    ⊎ (((offset ≤ length mmap.bytes)
          × (length mmap.bytes < offset + count)
          × (outcome ≡ err invalid_data))
        ⊎ ((offset + count ≤ length mmap.bytes)
            × (outcome ≡ ok (slice (mmap.addr + offset) (take count (drop offset mmap.bytes))))))

read_pod_slice-IsRead :
    (mmap : Slice) (offset count : ℕ)
    → length mmap.bytes < 2 ^ 64
    → IsRead mmap offset count (read_pod_slice 1 1 offset count mmap)
unfolding read_pod_slice get_from read_pod_slice_ref read_slice ensure
read_pod_slice-IsRead mmap offset count fits = elim (Bool-cases (leb offset (length mmap.bytes))) [
  | inr t ↦ inl (leb→lt offset (length mmap.bytes) t, rw (t, read_pod_slice, get_from) refl)
  | inl t ↦
      let le : offset ≤ length mmap.bytes = leb→le offset (length mmap.bytes) t in
      let left = length-drop offset mmap.bytes in
      elim (Bool-cases (leb (1 * count) usize_max)) [
        | inr u ↦
            let big = leb→lt (1 * count) usize_max u in
            inr (
              inl (
                le,
                omega (arith, big, fits),
                rw (t, u, read_pod_slice, get_from, read_pod_slice_ref) refl,
              ))
        | inl u ↦ elim (Bool-cases (ltb (length (drop offset mmap.bytes)) (1 * count))) [
          | inl v ↦
              let short = ltb→lt (length (drop offset mmap.bytes)) (1 * count) v in
              inr (
                inl (
                  le,
                  omega (arith, short, left, le),
                  rw (t, u, v, read_pod_slice, get_from, read_pod_slice_ref, read_slice, ensure)
                      refl,
                ))
          | inr v ↦
              let enough = ltb→le (length (drop offset mmap.bytes)) (1 * count) v in
              inr (
                inr (
                  omega (arith, enough, left, le),
                  rw
                      (
                        t,
                        u,
                        v,
                        any_aligned (mmap.addr + offset),
                        read_pod_slice,
                        get_from,
                        read_pod_slice_ref,
                        read_slice,
                        ensure,
                      )
                      (ap
                        (λ (k : ℕ).
                          ok (slice (mmap.addr + offset) (take k (drop offset mmap.bytes))))
                        (omega arith)),
                ))
        ]
      ]
]

-- For a section whose header is read from a map of less than 2^64 bytes: without bits in the file
-- its raw data is empty. Otherwise, it is the bytes at the header's offset of the header's size if
-- they are in the file; the read panics if the offset is behind the end of the file, and fails with
-- invalid data if only the end of the section is.
pub section_data_raw-IsRead :
    (mmap : Slice) (idx : ℕ) (shdr : ElfNShdr)
    → length mmap.bytes < 2 ^ 64
    → section_hdr mmap idx ≡ ok shdr
    → ((Shdr.type_of shdr ≡ sht_nobits) × (section_data_raw mmap idx ≡ ok (slice 0 [])))
      ⊎ ((Shdr.type_of shdr ≢ sht_nobits)
          × IsRead mmap (Shdr.offset shdr) (Shdr.size shdr) (section_data_raw mmap idx))
unfolding section_data_raw header_data
section_data_raw-IsRead mmap idx shdr fits own = elim (ℕ_discrete (Shdr.type_of shdr) sht_nobits) [
  | yes e ↦
      let t : (Shdr.type_of shdr == sht_nobits) ≡ true = (==_iff _ _).1 e in
      inl (e, rw (own, t, section_data_raw) refl)
  | no ne ↦
      let t : (Shdr.type_of shdr == sht_nobits) ≡ false = ne→== (Shdr.type_of shdr) sht_nobits ne in
      inr (
        ne,
        rw (own, t, section_data_raw, header_data)
            (read_pod_slice-IsRead mmap (Shdr.offset shdr) (Shdr.size shdr) fits),
      )
]

-- The data of a section whose header has no flag for compression is its raw data, whatever the
-- decompressors do.
section_data-section_data_raw :
    (decompress_zlib decompress_zstd : List ℕ → Outcome Slice) (mmap : Slice) (idx : ℕ)
    (shdr : ElfNShdr)
    → section_hdr mmap idx ≡ ok shdr
    → bit_and (Shdr.flags shdr) shf_compressed ≡ 0
    → section_data decompress_zlib decompress_zstd mmap idx ≡ section_data_raw mmap idx
unfolding section_data section_data_raw section_contents
section_data-section_data_raw decompress_zlib decompress_zstd mmap idx shdr own plain =
    let t : (bit_and (Shdr.flags shdr) shf_compressed == 0) ≡ true = (==_iff _ _).1 plain in
    elim (Bool-cases (Shdr.type_of shdr == sht_nobits)) [
      | inl n ↦ rw (own, n, section_data, section_data_raw) refl
      | inr n ↦
          rw (own, n, section_data, section_data_raw)
            (>>=-cong (header_data mmap shdr)
                (λ part. section_contents decompress_zlib decompress_zstd shdr part)
                (λ part. ok part) (λ part. rw (t, section_contents) refl)
              ∙ >>=-ok (header_data mmap shdr))
    ]
  where
    >>=-ok : (m : Outcome Slice) → (m >>= λ part. ok part) ≡ m
    >>=-ok (ok part) = refl
    >>=-ok (err e) = refl
    >>=-ok stuck = refl
