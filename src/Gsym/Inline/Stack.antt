-- ===== src/Gsym/Inline/Stack.antt =====
-- The inline stack at an address: named functions that contain it, from the outside in.
use blazesym.Common.{
  ℕ, ◌<◌, ◌≡◌, true, List, [], ◌∷◌, ◌++◌, ltb, if◌then◌else◌, All, Bool-cases, inl, inr, ltb→lt,
}
use blazesym.Gsym.Inline.{
  InlineInfo, Children, inline_info, none_left, child, name, ranges, any_contains,
  inline_stack_impl, inline_children, inline_stack,
}

-- a named function with a range around the address
abbrev pub IsFrame : (addr : ℕ) → InlineInfo → Type 0
IsFrame addr info = (any_contains (ranges info) addr ≡ true) × (0 < name info)

All-append :
    (addr : ℕ) (xs : List InlineInfo) (x : InlineInfo)
    → All (IsFrame addr) xs
    → IsFrame addr x
    → All (IsFrame addr) (xs ++ (x ∷ []))
All-append addr [] x h k = (k, tt)
All-append addr (y ∷ xs) x (hy, h) k = (hy, All-append addr xs x h k)

push_self :
    (addr : ℕ) (info : InlineInfo) (inlined : List InlineInfo)
    → any_contains (ranges info) addr ≡ true
    → All (IsFrame addr) inlined
    → All (IsFrame addr) (if ltb 0 (name info) then inlined ++ (info ∷ []) else inlined)
push_self addr info inlined t h = elim (Bool-cases (ltb 0 (name info))) [
  | inl n ↦ rw n (All-append addr inlined info h (t, ltb→lt 0 (name info) n))
  | inr n ↦ rw n h
]

mutual
  unfolding inline_stack_impl inline_children

  impl-frames :
      (info : InlineInfo) (addr : ℕ) (inlined : List InlineInfo)
      → All (IsFrame addr) inlined
      → All (IsFrame addr) (inline_stack_impl info addr inlined).1
  impl-frames (inline_info n f l rs cs) addr inlined h = elim (Bool-cases (any_contains rs addr)) [
    | inr t ↦ rw t h
    | inl t ↦
        rw t (children-frames cs addr _ (push_self addr (inline_info n f l rs cs) inlined t h))
  ]

  children-frames :
      (cs : Children) (addr : ℕ) (inlined : List InlineInfo)
      → All (IsFrame addr) inlined
      → All (IsFrame addr) (inline_children cs addr inlined)
  children-frames none_left addr inlined h = h
  children-frames (child info rest) addr inlined h =
      elim (Bool-cases (inline_stack_impl info addr inlined).0) [
        | inl t ↦ rw t (impl-frames info addr inlined h)
        | inr t ↦ rw t (children-frames rest addr _ (impl-frames info addr inlined h))
      ]

-- Every entry of the inline stack at an address has a range around the address and a name that is
-- not the empty one at offset zero.
pub inline_stack-frames :
    (info : InlineInfo) (addr : ℕ) → All (IsFrame addr) (inline_stack info addr)
unfolding inline_stack
inline_stack-frames info addr = impl-frames info addr [] tt
