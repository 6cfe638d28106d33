-- ===== src/Gsym/Parser/AddressData.antt =====
-- The address data that `parse_address_data` reads from an encoded list.
use native.Mathlib.Nat.{pow-suc}
use blazesym.Common.{
  ℕ, zero, suc, ◌+◌, ◌/◌, ◌%◌, ◌^◌, ◌≤◌, ◌<◌, ◌≡◌, refl, ap, ◌∙◌, false, Option, none, some, List,
  [], ◌∷◌, ◌++◌, arith, length, length-append, ◌==◌,
}
use blazesym.Util.Slice.{Slice, slice, read_pod, read_u32, from_le_bytes}
use blazesym.Util.Rest.{read_slice-append}
use blazesym.Gsym.Types.{AddrData, info_type_end_of_list}
use blazesym.Gsym.Parser.{next_address_data, address_data_loop, parse_address_data}

-- the bytes of a number in memory, on a little-endian host
pub le_bytes : (size n : ℕ) → List ℕ
le_bytes zero n = []
le_bytes (suc size) n = n % 256 ∷ le_bytes size (n / 256)

from_le_bytes-le_bytes : (size n : ℕ) → n < 256 ^ size → from_le_bytes (le_bytes size n) ≡ n
unfolding le_bytes from_le_bytes
from_le_bytes-le_bytes zero n h = omega arith
from_le_bytes-le_bytes (suc size) n h =
    omega (arith, from_le_bytes-le_bytes size (n / 256) (omega (arith, pow-suc 256 size)))

read_u32-le_bytes :
    (addr n : ℕ) (rest : List ℕ)
    → n < 2 ^ 32
    → read_u32 (slice addr (le_bytes 4 n ++ rest)) ≡ (some n, slice (addr + 4) rest)
unfolding read_u32 read_pod le_bytes
read_u32-le_bytes addr n rest h =
    rw (read_slice-append addr (le_bytes 4 n) rest, from_le_bytes-le_bytes 4 n (omega arith)) refl

-- an item: its type and its bytes
abbrev pub Item : Type 0
Item = ℕ × List ℕ

abbrev pub IsItem : Item → Type 0
IsItem item = (0 < item.0) × (item.0 < 2 ^ 32) × (length item.1 < 2 ^ 32)

abbrev pub encode : List Item → (behind : List ℕ) → List ℕ
encode [] behind = le_bytes 4 0 ++ behind
encode ((typ, bytes) ∷ items) behind =
    le_bytes 4 typ ++ (le_bytes 4 (length bytes) ++ (bytes ++ encode items behind))

-- where the items stand in memory
abbrev pub placed : (addr : ℕ) → List Item → List AddrData
placed addr [] = []
placed addr ((typ, bytes) ∷ items) =
    record { typ = typ; content = slice (addr + 4 + 4) bytes }
    ∷ placed (addr + 4 + 4 + length bytes) items

next-item :
    (addr typ : ℕ) (bytes rest : List ℕ)
    → IsItem (typ, bytes)
    → next_address_data
        (slice addr (le_bytes 4 typ ++ (le_bytes 4 (length bytes) ++ (bytes ++ rest))))
      ≡ (
        some (record { typ = typ; content = slice (addr + 4 + 4) bytes }),
        slice (addr + 4 + 4 + length bytes) rest,
      )
unfolding next_address_data
next-item addr typ bytes rest (lo, hi, len) =
    let goes_on : (typ == info_type_end_of_list) ≡ false = ground arith in
    rw
      (
        read_u32-le_bytes addr typ (le_bytes 4 (length bytes) ++ (bytes ++ rest)) hi,
        goes_on,
        read_u32-le_bytes (addr + 4) (length bytes) (bytes ++ rest) len,
        read_slice-append (addr + 4 + 4) bytes rest,
        next_address_data,
      )
      refl

next-end :
    (addr : ℕ) (behind : List ℕ)
    → (next_address_data (slice addr (le_bytes 4 0 ++ behind))).0 ≡ none
unfolding next_address_data
next-end addr behind = rw (read_u32-le_bytes addr 0 behind (omega arith), next_address_data) refl

abbrev pub AllItems : List Item → Type 0
AllItems [] = Unit
AllItems (item ∷ items) = IsItem item × AllItems items

abbrev round : (fuel : ℕ) → Option AddrData × Slice → List AddrData
round fuel (none, t) = []
round fuel (some d, t) = d ∷ address_data_loop fuel t

address_data_loop-round :
    (fuel : ℕ) (s : Slice) → address_data_loop (suc fuel) s ≡ round fuel (next_address_data s)
unfolding address_data_loop
address_data_loop-round fuel s = of (next_address_data s)
  where
    of :
        (r : Option AddrData × Slice)
        → elim (r.0) [ none ↦ [] | some d ↦ d ∷ address_data_loop fuel r.1 ] ≡ round fuel r
    of (none, t) = refl
    of (some d, t) = refl

encode-longer :
    (typ : ℕ) (bytes : List ℕ) (items : List Item) (behind : List ℕ)
    → length (encode items behind) < length (encode ((typ, bytes) ∷ items) behind)
unfolding le_bytes
encode-longer typ bytes items behind = omega (arith, length-append {0} bytes (encode items behind))

address_data_loop-encode :
    (items : List Item) (behind : List ℕ) (addr fuel : ℕ)
    → AllItems items
    → length (encode items behind) ≤ fuel
    → address_data_loop fuel (slice addr (encode items behind)) ≡ placed addr items
unfolding address_data_loop
address_data_loop-encode [] behind addr zero h room = refl
address_data_loop-encode [] behind addr (suc fuel) h room =
    rw (next-end addr behind, address_data_loop) refl
address_data_loop-encode ((typ, bytes) ∷ items) behind addr zero h room =
    absurd (omega (arith, encode-longer typ bytes items behind))
address_data_loop-encode ((typ, bytes) ∷ items) behind addr (suc fuel) (item, h) room =
    address_data_loop-round fuel (slice addr (encode ((typ, bytes) ∷ items) behind))
    ∙ ap (round fuel) (next-item addr typ bytes (encode items behind) item)
    ∙ ap (λ (l : List AddrData). record { typ = typ; content = slice (addr + 4 + 4) bytes } ∷ l)
        (address_data_loop-encode items behind (addr + 4 + 4 + length bytes) fuel h
          (omega (arith, encode-longer typ bytes items behind)))

-- `parse_address_data` reads back an encoded list of items, each with a type other than the end of
-- the list and a type and a length of 32 bits: it yields their types and their bytes at the
-- addresses where they stand, and stops at the end of the list, whatever is behind it.
pub parse_address_data-encode :
    (items : List Item) (behind : List ℕ) (addr : ℕ)
    → AllItems items
    → parse_address_data (slice addr (encode items behind)) ≡ placed addr items
unfolding parse_address_data
parse_address_data-encode items behind addr h =
    address_data_loop-encode items behind addr (length (encode items behind)) h (omega arith)
