-- ===== src/Gsym/Parser.antt =====
-- src/gsym/parser.rs: the tables of a Gsym file.
pub mod AddressData
pub mod Table
use blazesym.Common.{
  ℕ, zero, suc, ◌+◌, ◌-◌, ◌*◌, ◌^◌, ◌||◌, Bool, Option, none, some, List, [], ◌∷◌, map, ltb, ◌==◌,
  if◌then◌else◌, length, get_elem?, take, drop,
}
use blazesym.Common.Outcome.{Outcome, ok, err, invalid_data}
use blazesym.Util.Slice.{
  Slice, Read, ◌>>=◌, ◌>>◌, pure, lift, read_pod, read_u8, read_u16, read_u32, read_u64, read_array,
  read_slice, align, read_pod_slice_ref, read_cstr, from_le_bytes, chunks, get_from, checked_mul,
}
use blazesym.Util.Order.{nat_ord}
use blazesym.Util.Search.{find_match_or_lower_bound_by_key}
use blazesym.Gsym.Types.{
  Header, FileInfo, AddrInfo, AddrData, gsym_magic, gsym_version, info_type_end_of_list,
}

pub record GsymContext : Type 0 where
  pub header : Header
  pub addr_tab : Slice
  pub addr_data_off_tab : List ℕ
  pub file_tab : List FileInfo
  pub str_tab : Slice
  pub raw_data : Slice

-- `&[u32]` and `&[FileInfo]` behind their bytes.
u32_table : (count : ℕ) → Slice → List ℕ
unfolding chunks from_le_bytes
u32_table count s = map from_le_bytes (chunks 4 count s.bytes)

file_infos : (count : ℕ) → Slice → List FileInfo
unfolding chunks from_le_bytes
file_infos count s =
    map
      (λ entry. record {
        directory = from_le_bytes (take 4 entry);
        filename = from_le_bytes (drop 4 entry);
      })
      (chunks 8 count s.bytes)

-- What `parse_header_impl` reads behind the version. The product of two numbers below 2 ^ 32 and
-- 2 ^ 8 does not overflow.
parse_tables : (head : Slice) (magic version : ℕ) → Read GsymContext
unfolding u32_table file_infos
parse_tables head magic version = do
  addr_off_size ← read_u8
  uuid_size ← read_u8
  base_address ← read_u64
  num_addrs ← read_u32
  strtab_offset ← read_u32
  strtab_size ← read_u32
  uuid ← read_array 20
  addr_tab ← read_slice (num_addrs * addr_off_size)
  align 4
  addr_data_off_tab ← read_pod_slice_ref 4 4 num_addrs
  file_num ← read_u32
  align 4
  file_tab ← read_pod_slice_ref 8 4 file_num
  behind ← lift (get_from strtab_offset head)
  str_tab ← lift ((read_slice strtab_size behind).0)
  pure (record {
    header = record {
      magic = magic;
      version = version;
      addr_off_size = addr_off_size;
      uuid_size = uuid_size;
      base_address = base_address;
      num_addrs = num_addrs;
      strtab_offset = strtab_offset;
      strtab_size = strtab_size;
      uuid = uuid;
    };
    addr_tab = addr_tab;
    addr_data_off_tab = u32_table num_addrs addr_data_off_tab;
    file_tab = file_infos file_num file_tab;
    str_tab = str_tab;
    raw_data = head;
  })

-- `Option<Result<GsymContext>>`: nothing where the data end too early.
parse_header_impl : (head : Slice) → Option (Outcome GsymContext)
unfolding parse_tables
parse_header_impl head =
    let reads : Read (Outcome GsymContext) = do
      magic ← read_u32
      let tables : ℕ → Read (Outcome GsymContext) =
          λ version. do ctx ← parse_tables head magic version; pure (ok ctx)
      if magic == gsym_magic
          then (do
            version ← read_u16
            if version == gsym_version then tables version else pure (err invalid_data))
          else pure (err invalid_data)
    in (reads head).0

unfoldable pub parse_header : (head : Slice) → Outcome GsymContext
unfolding parse_header_impl
parse_header head = elim (parse_header_impl head) [ none ↦ err invalid_data | some result ↦ result ]

-- `find_addr_impl::<T>`, for the unsigned integer `T` of `size` bytes.
pub find_addr_impl : (size : ℕ) → (addr_tab : Slice) → (num_addrs addr : ℕ) → Option ℕ
unfolding chunks from_le_bytes
find_addr_impl size addr_tab num_addrs addr =
    elim ((read_pod_slice_ref size size num_addrs addr_tab).0) [
      | none ↦ none
      | some table ↦
          find_match_or_lower_bound_by_key (λ x. x)
            (map from_le_bytes (chunks size num_addrs table.bytes)) addr
    ]

-- The widths that an entry of the address table may have.
abbrev pub is_addr_size : ℕ → Bool
is_addr_size size = size == 1 || (size == 2 || (size == 4 || size == 8))

-- `u64::checked_add`.
abbrev pub checked_add : ℕ → ℕ → Option ℕ
checked_add a b = if ltb (a + b) (2 ^ 64) then some (a + b) else none

module _ (ctx : GsymContext) where
  unfoldable pub find_addr : (addr : ℕ) → Option ℕ
  unfolding find_addr_impl
  find_addr addr =
      let size = ctx.header.addr_off_size in
      if ltb addr ctx.header.base_address
      then none
      else if is_addr_size size
      then find_addr_impl size ctx.addr_tab ctx.header.num_addrs (addr - ctx.header.base_address)
      else none

  unfoldable pub addr_at : (idx : ℕ) → Option ℕ
  addr_at idx =
      let size = ctx.header.addr_off_size in
      let reads : Read ℕ = do
        at ← lift (checked_mul idx size)
        rest ← lift (get_from at ctx.addr_tab)
        addr ← lift (if is_addr_size size then (read_pod size rest).0 else none)
        lift (checked_add ctx.header.base_address addr)
      in (reads ctx.addr_tab).0

  unfoldable pub addr_info : (idx : ℕ) → Option AddrInfo
  addr_info idx = elim (get_elem? ctx.addr_data_off_tab idx) [
    | none ↦ none
    | some offset ↦ elim (get_from offset ctx.raw_data) [
      | none ↦ none
      | some rest ↦
          let reads : Read AddrInfo = do
            size ← read_u32
            name ← read_u32
            λ content. (some (record { size = size; name = name; content = content }), content)
          in (reads rest).0
    ]
  ]

  unfoldable pub get_str : (offset : ℕ) → Option (List ℕ)
  get_str offset = elim (get_from offset ctx.str_tab) [
    | none ↦ none
    | some rest ↦ (read_cstr rest).0
  ]

  unfoldable pub file_info : (idx : ℕ) → Option FileInfo
  file_info idx = get_elem? ctx.file_tab idx

-- One call of the iterator of `parse_address_data`.
pub next_address_data : Read AddrData
next_address_data = do
  typ ← read_u32
  if typ == info_type_end_of_list
      then lift none
      else (do len ← read_u32; d ← read_slice len; pure (record { typ = typ; content = d }))

-- The items that the iterator yields. Each takes eight bytes at least, so the length of the data
-- is enough fuel: at zero there is nothing to read.
pub address_data_loop : (fuel : ℕ) → Slice → List AddrData
unfolding next_address_data
address_data_loop zero s = []
address_data_loop (suc fuel) s =
    let (item, rest) = next_address_data s in
    elim item [ none ↦ [] | some d ↦ d ∷ address_data_loop fuel rest ]

unfoldable pub parse_address_data : Slice → List AddrData
unfolding address_data_loop
parse_address_data s = address_data_loop (length s.bytes) s
