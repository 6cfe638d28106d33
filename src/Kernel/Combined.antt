-- ===== src/Kernel/Combined.antt =====
-- That the combination of two resolvers of src/kernel/resolver.rs does not reach its `unreachable!`.
use mathlib.Core.Path.{subst}
use blazesym.Common.{◌&&◌, ℕ, ◌≡◌, ◌≢◌, refl, sym, false, Option, none, some, Bool-cases, inl, inr}
use blazesym.Common.Outcome.{
  Outcome, ok, err, stuck, ◌>>=◌, >>=-eq-ok, ok-injective, ok_or_invalid_input,
}
use blazesym.Symbolize.{FindSymOpts, Found}
use blazesym.Symbolize
use blazesym.Kernel.{
  FindSym, KernelResolver, is_none, offset_or, new, checked_sub, elf_addr, or_else, find_sym,
}

-- a resolver, if there is one, that always answers
abbrev pub Answers : Option FindSym → Type 0
Answers none = Unit
Answers (some resolver) = (addr : ℕ) (opts : FindSymOpts) → resolver addr opts ≢ stuck

-- an outcome that the source has stays one behind a check, and behind a first resolver
>>=-ne-stuck :
    {A B : Type 0} (m : Outcome A) (rest : A → Outcome B)
    → m ≢ stuck
    → ((a : A) → rest a ≢ stuck)
    → (m >>= rest) ≢ stuck
>>=-ne-stuck (ok a) rest h k = k a
>>=-ne-stuck (err e) rest h k = λ q. cc
>>=-ne-stuck stuck rest h k = absurd (h refl)

elf_addr-ne-stuck : (resolver : KernelResolver) (addr : ℕ) → elf_addr resolver addr ≢ stuck
elf_addr-ne-stuck resolver addr = of (checked_sub addr resolver.kaslr_offset)
  where
    of : (a? : Option ℕ) → ok_or_invalid_input a? ≢ stuck
    of none q = cc
    of (some a) q = cc

or_else-ne-stuck :
    (result : Found) (other : Outcome Found) → other ≢ stuck → or_else result other ≢ stuck
or_else-ne-stuck (Symbolize.found sym) other h = λ q. cc
or_else-ne-stuck (Symbolize.not_found reason) other h = h

find_sym-Answers :
    (ksym elf : Option FindSym) (offset : ℕ)
    → (is_none ksym && is_none elf) ≡ false
    → Answers ksym
    → Answers elf
    → Answers (
        some
          (find_sym (record { ksym_resolver = ksym; elf_resolver = elf; kaslr_offset = offset })))
unfolding find_sym
find_sym-Answers none none offset some_there k e = cc
find_sym-Answers (some ksym) none offset some_there k e = k
find_sym-Answers none (some elf) offset some_there k e = λ addr opts.
    >>=-ne-stuck _ (λ a. elf a opts)
      (elf_addr-ne-stuck
        (record { ksym_resolver = none; elf_resolver = some elf; kaslr_offset = offset }) addr)
      (λ a. e a opts)
find_sym-Answers (some ksym) (some elf) offset some_there k e = λ addr opts.
    >>=-ne-stuck _ (λ a. elf a opts >>= λ result. or_else result (ksym addr opts))
      (elf_addr-ne-stuck
        (record { ksym_resolver = some ksym; elf_resolver = some elf; kaslr_offset = offset }) addr)
      (λ a.
        >>=-ne-stuck (elf a opts) (λ result. or_else result (ksym addr opts)) (e a opts)
          (λ result. or_else-ne-stuck result (ksym addr opts) (k addr opts)))

-- Where `new` makes a kernel resolver from resolvers that always answer, the kernel resolver always
-- answers, with a result or an error: its `unreachable!` is not reached.
pub find_sym-new :
    (ksym elf : Option FindSym) (kaslr_offset : Option ℕ) (system : Outcome (Option ℕ))
    (resolver : KernelResolver)
    → new ksym elf kaslr_offset system ≡ ok resolver
    → Answers ksym
    → Answers elf
    → Answers (some (find_sym resolver))
unfolding new
find_sym-new ksym elf kaslr_offset system resolver made k e =
    elim (Bool-cases (is_none ksym && is_none elf)) [
      | inl t ↦ (let q = rw (t, new) at made in cc)
      | inr t ↦
          let (offset, at, same) =
            >>=-eq-ok (offset_or kaslr_offset system) _ (rw (t, new) at made) in
          subst (λ (r : KernelResolver). Answers (some (find_sym r))) (ok-injective same)
            (find_sym-Answers ksym elf offset t k e)
    ]
