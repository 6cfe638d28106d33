-- ===== src/Gsym/Inline.antt =====
-- src/gsym/inline.rs: the tree of inlined functions of a symbol.
pub mod Fuel
pub mod Stack
use blazesym.Common.{
  ℕ, zero, suc, ◌+◌, ◌-◌, ◌^◌, Bool, true, false, not, ◌&&◌, Option, none, some, List, [], ◌∷◌,
  ◌++◌, ltb, leb, ◌==◌, ◌*◌, ◌||◌, length, if◌then◌else◌,
}
use blazesym.Common.Outcome.{ErrorKind, invalid_data, other, Outcome, ok, err, stuck}
use blazesym.Util.Slice.{Slice, Read, read_u8, read_u32}
use blazesym.Util.Leb128.{read_u64_leb128}

-- `Range<u64>`, and `contains`.
pub record Range : Type 0 where
  pub start : ℕ
  pub end : ℕ

abbrev pub contains : Range → ℕ → Bool
contains range addr = leb range.start addr && ltb addr range.end

-- The children are a type of their own.
mutual
  pub data InlineInfo : Type 0 where
    inline_info :
        (name : ℕ)
        → (call_file call_line : Option ℕ) → (ranges : List Range) → (children : Children)
        → InlineInfo

  pub data Children : Type 0 where
    none_left : Children
    child : InlineInfo → Children → Children

abbrev pub name : InlineInfo → ℕ
name (inline_info n f l r c) = n

abbrev pub ranges : InlineInfo → List Range
ranges (inline_info n f l r c) = r

-- A parse returns what `&mut data` is left at, also where it fails.
abbrev pub Parse : Type 0 → Type 0
Parse A = Slice → Outcome A × Slice

abbrev pub pass_on : {A B : Type 0} → Outcome A × Slice → (A → Parse B) → Outcome B × Slice
pass_on (err e, s) f = (err e, s)
pass_on (stuck, s) f = (stuck, s)
pass_on (ok a, s) f = f a s

infixl 5 ◌>>=◌ ◌>>◌
abbrev pub ◌>>=◌ : {A B : Type 0} → Parse A → (A → Parse B) → Parse B
◌>>=◌ m f s = pass_on (m s) f

abbrev pub ◌>>◌ : {B : Type 0} → Parse (Unit {0}) → Parse B → Parse B
◌>>◌ m k = m >>= λ _. k

abbrev pub pure : {A : Type 0} → A → Parse A
pure a s = (ok a, s)

abbrev pub fail : {A : Type 0} → ErrorKind → Parse A
fail e s = (err e, s)

-- `ok_or_invalid_data` behind a read.
abbrev pub or_invalid_data : {A : Type 0} → Option A × Slice → Outcome A × Slice
or_invalid_data (none, s) = (err invalid_data, s)
or_invalid_data (some a, s) = (ok a, s)

abbrev pub reading : {A : Type 0} → Read A → Parse A
reading m s = or_invalid_data (m s)

-- `u64::checked_add`, with the error of the source.
abbrev pub checked_add : ℕ → ℕ → Parse ℕ
checked_add a b = if ltb (a + b) (2 ^ 64) then pure (a + b) else fail invalid_data

-- One offset and size, as a range behind `base_addr`.
pub parse_range : (base_addr : ℕ) → Parse Range
parse_range base_addr = do
  offset ← reading read_u64_leb128
  size ← reading read_u64_leb128
  start ← checked_add base_addr offset
  end ← checked_add start size
  pure (record { start = start; end = end })

-- `for i in 0..range_cnt` with an address to look up, from round `i`: the ranges that contain it are
-- put behind those found so far, and the start of the first range is kept for the children.
pub parse_ranges :
    (rounds i base_addr lookup_addr child_base_addr : ℕ)
    → (found : List Range) → Parse (ℕ × List Range)
unfolding parse_range
parse_ranges zero i base_addr lookup_addr child_base_addr found = pure (child_base_addr, found)
parse_ranges (suc n) i base_addr lookup_addr child_base_addr found = do
  range ← parse_range base_addr
  let child_base = if i == 0 then range.start else child_base_addr
  let found' = if contains range lookup_addr then found ++ (range ∷ []) else found
  parse_ranges n (i + 1) base_addr lookup_addr child_base found'

-- The same loop with no address: the numbers are skipped.
pub skip_ranges : (range_cnt : ℕ) → Parse (Unit {0})
skip_ranges zero = pure tt
skip_ranges (suc n) = do _ ← reading read_u64_leb128; _ ← reading read_u64_leb128; skip_ranges n

pub parse_range_block :
    (range_cnt base_addr : ℕ) → (lookup_addr : Option ℕ) → Parse (ℕ × List Range)
unfolding parse_ranges skip_ranges
parse_range_block range_cnt base_addr none = do skip_ranges range_cnt; pure (0, [])
parse_range_block range_cnt base_addr (some lookup_addr) =
    parse_ranges range_cnt 0 base_addr lookup_addr 0 []

abbrev pub u32_max : ℕ
u32_max = 2 ^ 32 - 1

-- `call_file` and `call_line`.
pub parse_call : (lookup_addr : Option ℕ) → Parse (Option ℕ × Option ℕ)
parse_call none = do _ ← reading read_u64_leb128; _ ← reading read_u64_leb128; pure (none, none)
parse_call (some lookup_addr) = do
  call_file ← reading read_u64_leb128
  call_file' ← if leb call_file u32_max then pure call_file else fail invalid_data
  call_line ← reading read_u64_leb128
  pure (some call_file', some (if leb call_line u32_max then call_line else u32_max))

abbrev pub is_empty : List Range → Bool
is_empty [] = true
is_empty (r ∷ rs) = false

-- What is read in front of the children: the child count, the name and the call.
pub record Head : Type 0 where
  pub child_base_addr : ℕ
  pub found : List Range
  pub child_cnt : ℕ
  pub head_name : ℕ
  pub call_file : Option ℕ
  pub call_line : Option ℕ

pub parse_head : (range_cnt base_addr : ℕ) → (lookup_addr : Option ℕ) → Parse Head
unfolding parse_range_block parse_call
parse_head range_cnt base_addr lookup_addr = do
  (child_base, found) ← parse_range_block range_cnt base_addr lookup_addr
  child_cnt ← reading read_u8
  name ← reading read_u32
  (call_file, call_line) ← parse_call lookup_addr
  pure (record {
    child_base_addr = child_base;
    found = found;
    child_cnt = child_cnt;
    head_name = name;
    call_file = call_file;
    call_line = call_line;
  })

abbrev pub with_children : Head → Children → Option InlineInfo
with_children head children =
    some (inline_info head.head_name head.call_file head.call_line head.found children)

unfoldable mutual
  unfolding parse_head

  -- `InlineInfo::parse`. A range count of zero ends a list of siblings.
  pub parse : (fuel base_addr : ℕ) → (lookup_addr : Option ℕ) → Parse (Option InlineInfo)
  parse zero base_addr lookup_addr = λ s. (stuck, s)
  parse (suc fuel) base_addr lookup_addr = ◌>>=◌ (reading read_u64_leb128) (λ range_cnt.
      if range_cnt == 0
      then pure none
      else ◌>>=◌ (parse_head range_cnt base_addr lookup_addr) (λ head.
        if head.child_cnt == 0
        then pure (with_children head none_left)
        else if is_empty head.found
        then ◌>>=◌ (parse_children fuel head.child_base_addr none)
            (λ _. pure (with_children head none_left))
        else ◌>>=◌ (parse_children fuel head.child_base_addr lookup_addr)
            (λ children. pure (with_children head children))))

  -- `while let Some(child) = Self::parse(..)?`.
  pub parse_children : (fuel base_addr : ℕ) → (lookup_addr : Option ℕ) → Parse Children
  parse_children zero base_addr lookup_addr = λ s. (stuck, s)
  parse_children (suc fuel) base_addr lookup_addr =
      ◌>>=◌ (parse fuel base_addr lookup_addr) (λ next. elim next [
        | none ↦ pure none_left
        | some info ↦
            ◌>>=◌ (parse_children fuel base_addr lookup_addr) (λ rest. pure (child info rest))
      ])

-- The fuel that every slice is parsed with: each call of `parse` takes a byte at least.
abbrev pub enough_fuel : Slice → ℕ
enough_fuel s = 2 * length s.bytes + 1

pub parse_all : (base_addr : ℕ) → (lookup_addr : Option ℕ) → Parse (Option InlineInfo)
unfolding parse
parse_all base_addr lookup_addr s = parse (enough_fuel s) base_addr lookup_addr s

abbrev pub any_contains : List Range → ℕ → Bool
any_contains [] addr = false
any_contains (r ∷ rs) addr = contains r addr || any_contains rs addr

abbrev pub none_inlined : List InlineInfo → Bool
none_inlined [] = true
none_inlined (i ∷ is) = false

unfoldable mutual
  -- `inline_stack_impl`, with the vector that it pushes to. The loop over the ranges ends at the
  -- first that contains the address, and the loop over the children at the first that answers true.
  pub inline_stack_impl : InlineInfo → (addr : ℕ) → List InlineInfo → Bool × List InlineInfo
  inline_stack_impl (inline_info name file line ranges children) addr inlined =
      let self = inline_info name file line ranges children in
      let inlined' = if ltb 0 name then inlined ++ (self ∷ []) else inlined in
      let inlined'' = inline_children children addr inlined' in
      if any_contains ranges addr
      then (not (none_inlined inlined''), inlined'')
      else (false, inlined)

  pub inline_children : Children → (addr : ℕ) → List InlineInfo → List InlineInfo
  inline_children none_left addr inlined = inlined
  inline_children (child info rest) addr inlined =
      let (done, inlined') = inline_stack_impl info addr inlined in
      let more = inline_children rest addr inlined' in if done then inlined' else more

unfoldable pub inline_stack : InlineInfo → (addr : ℕ) → List InlineInfo
unfolding inline_stack_impl
inline_stack info addr = (inline_stack_impl info addr []).1
