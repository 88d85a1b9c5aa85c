-- ===== src/Llist/Relink.antt =====
-- The links of a list, and what takes nodes out of it.
use rcsw.Base.{
  ℕ, zero, suc, ◌+◌, ◌-◌, ◌%◌, ◌^◌, ◌&&◌, Option, none, some, ltb, if◌then◌else◌, Exec, done,
  out_of_fuel, ◌>>=◌, Status, ok,
}
use rcsw.Nodes.{same_ptr, load_node, set_next, set_prev, next_of}
use rcsw.Llist.{Llist, node_destroy}

module _ {ℓ} {A : Type ℓ} where
  -- With the last node that the list had, and with its first.
  unfoldable pub link_behind : Llist A → ℕ → (z : Option ℕ) → Exec (Llist A)
  link_behind l a none = do
    h ← set_next l.heap (some a) none
    h' ← set_prev h (some a) none
    done (record l { heap = h'; first = some a; last = some a })
  link_behind l a (some z) = do
    h ← set_next l.heap (some a) none
    h' ← set_next h (some z) (some a)
    h'' ← set_prev h' (some a) (some z)
    done (record l { heap = h''; last = some a })

  unfoldable pub link_before : Llist A → ℕ → (z : Option ℕ) → Exec (Llist A)
  link_before l a none = do
    h ← set_prev l.heap (some a) none
    h' ← set_next h (some a) none
    done (record l { heap = h'; first = some a; last = some a })
  link_before l a (some z) = do
    h ← set_prev l.heap (some a) none
    h' ← set_next h (some a) (some z)
    h'' ← set_prev h' (some z) (some a)
    done (record l { heap = h''; first = some a })

  -- The three ways in which `llist_delete` takes a node out of the chain.
  unfoldable pub unlink : Llist A → ℕ → Exec (Llist A)
  unlink l p = do
    n ← load_node l.heap (some p)
    let only = done (record l { first = none; last = none })
    let front = (do h ← set_prev l.heap n.next none; done (record l { heap = h; first = n.next }))
    let back = (do h ← set_next l.heap n.prev none; done (record l { heap = h; last = n.prev }))
    let middle = (do
      h ← set_prev l.heap n.next n.prev
      h' ← set_next h n.prev n.next
      done (record l { heap = h' }))
    (if same_ptr l.first (some p) && same_ptr l.last (some p)
        then only
        else if same_ptr l.first (some p)
        then front
        else if same_ptr l.last (some p)
        then back
        else middle)

  -- The value for `e` is given with the list.
  unfoldable pub delete : Llist A → ℕ → Exec (A × Llist A)
  delete l p = do
    l1 ← unlink l p
    n ← load_node l1.heap (some p)
    l2 ← node_destroy (record l1 { current = (l1.current + (2 ^ 64 - 1)) % 2 ^ 64 }) p
    done (n.value, l2)

  unfoldable pub destroy_loop : (fuel : ℕ) → Llist A → Option ℕ → Exec (Llist A)
  destroy_loop zero l curr = out_of_fuel
  destroy_loop (suc fuel) l none = done l
  destroy_loop (suc fuel) l (some p) = do
    next ← next_of l.heap (some p)
    l' ← node_destroy l p
    destroy_loop fuel l' next

  unfoldable pub clear : Llist A → Exec (Status × Llist A)
  clear l = do
    l' ← (if ltb 0 l.current then destroy_loop (l.current + 1) l l.first else done l)
    done (ok, record l' { current = 0; first = none; last = none })
