-- ===== src/Llist/Edit.antt =====
-- The operations of the list on its elements.
use rcsw.Base.{
  ℕ, zero, suc, ◌+◌, ◌%◌, ◌^◌, Bool, true, false, not, ◌&&◌, ◌||◌, Option, none, some, leb, ◌==◌,
  if◌then◌else◌, Exec, done, out_of_fuel, ◌>>=◌, einval, enospc, eagain, enomem, Status, ok, error,
  Element, cmp_eq,
}
use rcsw.Nodes.{Heap, is_null, write, load_node, next_of, mergesort_rec}
use rcsw.Llist.{Llist, Malloc, at_limit, is_empty, node_create}
use rcsw.Llist.Relink.{link_behind, link_before, delete}

module _ {ℓ} {A : Type ℓ} where
  module _ ⦃el : Element A⦄ where
    -- The walk to the last node after a sort.
    unfoldable pub walk_loop :
        (fuel : ℕ) → Heap A → (tmp : Option ℕ) → (count : ℕ) → Exec (Option ℕ × ℕ)
    walk_loop zero h tmp count = out_of_fuel
    walk_loop (suc fuel) h tmp count = do
      next ← next_of h tmp
      let further = walk_loop fuel h next (count + 1)
      (if is_null next then done (tmp, count) else further)

    -- `llist_sort(list, ekEXEC_REC)`
    unfoldable pub sort_rec : Llist A → Exec (Status × Llist A)
    sort_rec l =
        if not l.has_cmpe
        then done (error einval, l)
        else if leb l.current 1 || l.sorted
        then done (ok, l)
        else (do
          (h, top) ← mergesort_rec l.current l.heap l.first true
          (tmp, count) ← walk_loop (l.current + 1) h top 1
          let l' = record l { heap = h; first = top; sorted = true; last = tmp }
          done (if count == l.current then ok else error eagain, l'))

    -- The end of an insertion: one node more, and a sort where the flag SORTED is set.
    unfoldable pub count_in : Llist A → Exec (Status × Llist A)
    count_in l =
        let l' = record l { current = (l.current + 1) % 2 ^ 64 } in
        if l.keep_sorted
        then (do (st, l'') ← sort_rec (record l' { sorted = false }); done (ok, l''))
        else done (ok, l')

    unfoldable pub append : Malloc A → Llist A → A → Exec (Status × Llist A)
    append malloc l e = if at_limit l.current l.max_elts then done (error enospc, l) else (do
      (p, l1) ← node_create malloc l e
      elim p [
        | none ↦ done (error enomem, l1)
        | some a ↦ do l2 ← link_behind l1 a l1.last; count_in l2
      ])

    unfoldable pub prepend : Malloc A → Llist A → A → Exec (Status × Llist A)
    prepend malloc l e = if at_limit l.current l.max_elts then done (error enospc, l) else (do
      (p, l1) ← node_create malloc l e
      elim p [
        | none ↦ done (error enomem, l1)
        | some a ↦ do l2 ← link_before l1 a l1.first; count_in l2
      ])

    -- `same` compares two pointers of the caller, which the elements are with the flag DB_PTR.
    module _ (same : A → A → Bool) where
      abbrev pub matches : Llist A → A → A → Bool
      matches l x e = if l.by_ptr then same x e else cmp_eq x e

      unfoldable pub query_loop : (fuel : ℕ) → Llist A → A → Option ℕ → Exec (Option ℕ)
      query_loop zero l e curr = out_of_fuel
      query_loop (suc fuel) l e none = done none
      query_loop (suc fuel) l e (some p) = do
        n ← load_node l.heap (some p)
        let further = query_loop fuel l e n.next
        (if matches l n.value e then done (some p) else further)

      unfoldable pub node_query : Llist A → A → Exec (Option ℕ)
      node_query l e =
          if not l.has_cmpe && not l.by_ptr
          then done none
          else query_loop (l.current + 1) l e l.first

      unfoldable pub data_query : Llist A → A → Exec (Option A)
      data_query l e = do
        p ← node_query l e
        elim p [ none ↦ done none | some a ↦ do n ← load_node l.heap (some a); done (some n.value) ]

      unfoldable pub remove : Llist A → A → Exec (Status × Llist A)
      remove l e = if is_empty l then done (error einval, l) else (do
        p ← node_query l e
        elim p [ none ↦ done (ok, l) | some a ↦ do (x, l') ← delete l a; done (ok, l') ])

      abbrev pub remove_match : Llist A → Option ℕ → Exec (Status × Llist A)
      remove_match l none = done (ok, l)
      remove_match l (some m) = do n ← load_node l.heap (some m); remove l n.value

      unfoldable pub filter_loop :
          (fuel : ℕ)
          → Llist A
          → (pred : A → Bool) → (curr match : Option ℕ) → Exec (Status × Llist A)
      filter_loop zero l pred curr match = out_of_fuel
      filter_loop (suc fuel) l pred none match = remove_match l match
      filter_loop (suc fuel) l pred (some p) match = do
        (st, l') ← remove_match l match
        let further = (do
          n ← load_node l'.heap (some p)
          filter_loop fuel l' pred n.next (if pred n.value then some p else none))
        elim st [ error e ↦ done (error e, l') | ok ↦ further ]

      unfoldable pub filter2 : Llist A → (pred : A → Bool) → Exec (Status × Llist A)
      filter2 l pred = filter_loop (l.current + 1) l pred l.first none

  -- The loops of `llist_map` and `llist_inject`.
  unfoldable pub map_loop : (fuel : ℕ) → Heap A → (f : A → A) → (curr : Option ℕ) → Exec (Heap A)
  map_loop zero h f curr = out_of_fuel
  map_loop (suc fuel) h f none = done h
  map_loop (suc fuel) h f (some p) = do
    n ← load_node h (some p)
    map_loop fuel (write h p (some (record n { value = f n.value }))) f n.next

  unfoldable pub map_elts : Llist A → (f : A → A) → Exec (Status × Llist A)
  map_elts l f = do h ← map_loop (l.current + 1) l.heap f l.first; done (ok, record l { heap = h })

  unfoldable pub inject_loop {κ} :
      {R : Type κ} → (fuel : ℕ) → Heap A → (f : A → R → R) → (curr : Option ℕ) → R → Exec R
  inject_loop zero h f curr res = out_of_fuel
  inject_loop (suc fuel) h f none res = done res
  inject_loop (suc fuel) h f (some p) res = do
    n ← load_node h (some p)
    inject_loop fuel h f n.next (f n.value res)

  unfoldable pub inject {κ} : {R : Type κ} → Llist A → (f : A → R → R) → R → Exec (Status × R)
  inject l f res = do res' ← inject_loop (l.current + 1) l.heap f l.first res; done (ok, res')
