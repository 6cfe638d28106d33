-- ===== src/Normalize/Unsorted.antt =====
-- Normalization of addresses in any order: `normalize_user_addrs_opts` of src/normalize/normalizer.rs.
use blazesym.Common.{
  ℕ, zero, suc, ◌≤◌, ◌<◌, ◌≡◌, refl, sym, ap, ◌∙◌, Bool, false, Option, some, List, [], ◌∷◌, map,
  arith, length, length-map, get_elem?, get_elem?-some, get_elem?-lt, get_elem?-map, get_elem?-All,
  get_elem?-ext, All, All-get,
}
use blazesym.Common.Outcome.{ok}
use blazesym.Util.Order.{nat_ord, pair_ord, pair_lt}
use blazesym.Util.Sort.{IsAscending, NotBelow, sort_by_key-IsAscending}
use blazesym.Util.Reorder.{enumerate_from, element, self_key}
use blazesym.Util.Reorder.Ordered.{ordered, length-ordered, IsInOrder, with_ordered_elems-IsInOrder}
use blazesym.Maps.{MapsEntry}
use blazesym.Normalize.{
  UserMeta, NormalizationHandler, first_addr, normalize_user_addrs_impl, normalize_user_addrs_opts,
}
use blazesym.Normalize.Walk.{IsAscendingFrom}
use blazesym.Normalize.View.{Target, target_at, seen, view, IsWellFormed}
use blazesym.Normalize.Refinement.{answer, normalize_user_addrs_impl-view}

NotBelow-le : (x y : ℕ × ℕ) → NotBelow self_key x y → x.0 ≤ y.0
unfolding pair_lt
NotBelow-le (a, i) (b, j) h = ground (arith, h)

-- pairs that ascend do so in their first parts
ascending :
    (prev : ℕ) (ps : List (ℕ × ℕ))
    → All (λ p. prev ≤ p.0) ps
    → IsAscending self_key ps
    → IsAscendingFrom prev (map element ps)
ascending prev [] above asc = tt
ascending prev ((t, i) ∷ ps) (le, above) (least, asc) = (
  le,
  ascending t ps
      (get_elem?-All (λ p. t ≤ p.0) ps
        (λ k q at. NotBelow-le (t, i) q (All-get (NotBelow self_key (t, i)) ps k q least at)))
      asc,
)

ordered-IsAscendingFrom :
    (ps : List (ℕ × ℕ))
    → IsAscending self_key ps
    → IsAscendingFrom (first_addr (map element ps)) (map element ps)
ordered-IsAscendingFrom [] asc = tt
ordered-IsAscendingFrom ((t, i) ∷ ps) (least, asc) = (
  omega arith,
  (ascending t ((t, i) ∷ ps)
      (
        omega arith,
        get_elem?-All (λ p. t ≤ p.0) ps
            (λ k q at. NotBelow-le (t, i) q (All-get (NotBelow self_key (t, i)) ps k q least at)),
      )
      (least, asc)).1,
)

length-seen :
    (meta : List UserMeta) (outputs : List (ℕ × ℕ)) → length (seen meta outputs) ≡ length outputs
length-seen meta [] = refl
length-seen meta ((v, i) ∷ outputs) = ap suc (length-seen meta outputs)

seen-get :
    (meta : List UserMeta) (outputs : List (ℕ × ℕ)) (k : ℕ) (output : ℕ × ℕ)
    → get_elem? outputs k ≡ some output
    → get_elem? (seen meta outputs) k ≡ some (output.0, target_at meta output.1)
seen-get meta [] k output at = cc
seen-get meta ((v, i) ∷ outputs) zero output at = let q : (v, i) ≡ output = cc in rw (← q) refl
seen-get meta ((v, i) ∷ outputs) (suc k) output at = seen-get meta outputs k output at

-- Outputs that are put in the order of the addresses are seen in that order.
reordered-seen :
    (g : ℕ → ℕ × Option Target) (meta : List UserMeta) (addrs : List ℕ)
    (outputs reordered : List (ℕ × ℕ))
    → seen meta outputs ≡ map g (map element (ordered addrs))
    → IsInOrder addrs outputs reordered
    → seen meta reordered ≡ map g addrs
reordered-seen g meta addrs outputs reordered v (size, placed) =
    get_elem?-ext (seen meta reordered) (map g addrs)
      (length-seen meta reordered ∙ (size ∙ sym (length-map g addrs)))
      (λ i y at.
        let lt = get_elem?-lt (map g addrs) i y at in
        let (t, at_t) = get_elem?-some addrs i (omega (arith, lt, length-map g addrs)) in
        let (k, at_k, e) = placed i t at_t in
        let meant_k : get_elem? (seen meta outputs) k ≡ some (g t) =
          ap (λ (l : List (ℕ × Option Target)). get_elem? l k) v
          ∙ get_elem?-map g (map element (ordered addrs)) k t at_k in
        let lt_k = get_elem?-lt (seen meta outputs) k (g t) meant_k in
        let (output, own) =
          get_elem?-some outputs k (omega (arith, lt_k, length-seen meta outputs)) in
        seen-get meta reordered i output (e ∙ own)
        ∙ (sym (seen-get meta outputs k output own)
            ∙ (meant_k ∙ (sym (get_elem?-map g addrs i t at_t) ∙ at))))

reordered-All :
    (P : ℕ × ℕ → Type 0) (addrs : List ℕ) (outputs reordered : List (ℕ × ℕ))
    → All P outputs
    → IsInOrder addrs outputs reordered
    → All P reordered
reordered-All P addrs outputs reordered h (size, placed) = get_elem?-All P reordered (λ i output at.
    let (t, at_t) =
      get_elem?-some addrs i (omega (arith, size, get_elem?-lt reordered i output at)) in
    let (k, at_k, e) = placed i t at_t in All-get P outputs k output h (sym e ∙ at))

module _ (extension : List ℕ → Option (List ℕ)) (read_build_id : List ℕ → Option (List ℕ))
    (map_files : Bool) where
  -- For addresses in any order and entries that are all read, of which there is one at least,
  -- normalization without the option for sorted addresses succeeds: its output is the list of the
  -- answers for the addresses, in the order in which they were given, where an answer is a search
  -- of all entries. Every index of the output is in bounds.
  pub normalize_user_addrs_opts-view :
      (addrs : List ℕ) (entry : MapsEntry) (entries : List MapsEntry)
      → (h : NormalizationHandler) × (normalize_user_addrs_opts extension read_build_id map_files
            false addrs
            (map ok (entry ∷ entries))
          ≡ ok h)
        × IsWellFormed h
        × (view h ≡ map (answer extension read_build_id map_files (entry ∷ entries)) addrs)
  unfolding normalize_user_addrs_opts
  normalize_user_addrs_opts-view addrs entry entries =
      let sorted = map element (ordered addrs) in
      let g = answer extension read_build_id map_files (entry ∷ entries) in
      let (h, e, (inside, lookup, cache), v) =
        normalize_user_addrs_impl-view extension read_build_id map_files sorted entry entries (
          ordered-IsAscendingFrom (ordered addrs)
            (sort_by_key-IsAscending self_key (enumerate_from 0 addrs))) in
      let size : length h.outputs ≡ length addrs = omega (
        arith,
        length-seen h.meta h.outputs,
        ap length v,
        length-map g sorted,
        length-map element (ordered addrs),
        length-ordered addrs,
      ) in
      let (reordered, e', in_order) =
        with_ordered_elems-IsInOrder addrs (λ (k : NormalizationHandler). k.outputs)
          (λ outputs k. record k { outputs = outputs })
          (λ s.
            normalize_user_addrs_impl extension read_build_id map_files s
              (map ok (entry ∷ entries)))
          h e size in
      (
        record h { outputs = reordered },
        e',
        (
          reordered-All (λ output. output.1 < length h.meta) addrs h.outputs reordered inside
              in_order,
          lookup,
          cache,
        ),
        reordered-seen g h.meta addrs h.outputs reordered v in_order,
      )
