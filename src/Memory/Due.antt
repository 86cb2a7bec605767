-- ===== src/Memory/Due.antt =====
-- ListDueTasks: only due tasks, at most the limit, in the order of their times; and all of them, if the
-- limit leaves room.
use fsm_go.Prelude.{
  All-perm, ℕ, suc, ◌+◌, ◌≤◌, pos, leb_ℤ, ◌≡◌, refl, sym, ◌∙◌, true, false, List, [], ◌∷◌, ◌++◌,
  map, Permᴰ, arith, keep, length, length-append, length-perm, keep-perm, nil_of_length, Bool-cases,
  inl, inr, All, All-append,
}
use mathlib.Core.List
use mathlib.Core.List.{append-nil, append_assoc}
use fsm_go.Dict.{values}
use fsm_go.Errors.{ok}
use fsm_go.Types.{Time, TaskExecution}
use fsm_go.Memory.{
  MemoryStore, ScanOrder, clone_task, is_due, runs_before, scan_due, list_due_tasks,
}
use fsm_go.Memory.Sorting.{
  sort_stable, sort_stable-perm, sort_stable-IsSorted, IsSorted, IsWeakOrder,
}

module _ (n : ℕ) (now : Time) where
  length-scan_due :
      (ts out : List TaskExecution) → length out ≤ n → length (scan_due (pos n) now ts out) ≤ n
  unfolding scan_due
  length-scan_due [] out h = h
  length-scan_due (t ∷ ts) out h = elim (Bool-cases (leb_ℤ (pos n) (pos (length out)))) [
    | inl full ↦ rw full h
    | inr room ↦
        rw room (length-scan_due ts _ (ground (arith, length-append out (clone_task t ∷ []))))
  ]

  scan_due-All :
      (ts out : List TaskExecution)
      → All (λ t. is_due now t ≡ true) out
      → All (λ t. is_due now t ≡ true) (scan_due (pos n) now ts out)
  unfolding scan_due
  scan_due-All [] out h = h
  scan_due-All (t ∷ ts) out h = elim (Bool-cases (leb_ℤ (pos n) (pos (length out)))) [
    | inl full ↦ rw full h
    | inr room ↦ elim (Bool-cases (is_due now t)) [
      | inl due ↦
          rw (room, due)
            (scan_due-All ts (out ++ clone_task t ∷ [])
              (All-append _ out (clone_task t ∷ []) h (due, tt)))
      | inr not_due ↦ rw (room, not_due) (scan_due-All ts out h)
    ]
  ]

  -- with room for all that are due none is missed
  scan_due_all :
      (ts out : List TaskExecution)
      → length (keep (is_due now) ts) + length out ≤ n
      → scan_due (pos n) now ts out ≡ out ++ map clone_task (keep (is_due now) ts)
  unfolding scan_due
  scan_due_all [] out h = sym (append-nil out)
  scan_due_all (t ∷ ts) out h = elim (Bool-cases (is_due now t)) [
    | inl due ↦
        let h' : suc (length (keep (is_due now) ts)) + length out ≤ n = rw due at h in
        let room : leb_ℤ (pos n) (pos (length out)) ≡ false = ground arith in
        rw (room, due)
          (scan_due_all ts (out ++ clone_task t ∷ [])
              (omega (arith, length-append out (clone_task t ∷ [])))
            ∙ append_assoc out (clone_task t ∷ []) (map clone_task (keep (is_due now) ts)))
    | inr not_due ↦
        let h' : length (keep (is_due now) ts) + length out ≤ n = rw not_due at h in
        elim (Bool-cases (leb_ℤ (pos n) (pos (length out)))) [
          | inl full ↦
              rw (full, not_due, nil_of_length (keep (is_due now) ts) (ground arith))
                (sym (append-nil out))
          | inr room ↦ rw (room, not_due) (scan_due_all ts out h')
        ]
  ]

runs_before-IsWeakOrder : IsWeakOrder runs_before
runs_before-IsWeakOrder = record { asym = λ x y h. ground arith; trans = λ x y z h k. ground arith }

module _ (order : ScanOrder) (n : ℕ) (now : Time) (s : MemoryStore) where
  abbrev scanned : List TaskExecution
  scanned = scan_due (pos n) now (order.tasks (values s.tasks)) []

  pub list_due_tasks_lem :
      (out : List TaskExecution) × ((list_due_tasks order (pos n) now s).0 ≡ ok out)
      × (length out ≤ n)
      × All (λ t. is_due now t ≡ true) out
      × IsSorted runs_before out
      × (length (keep (is_due now) (values s.tasks)) ≤ n
          → Permᴰ out (map clone_task (keep (is_due now) (values s.tasks))))
  unfolding list_due_tasks
  list_due_tasks_lem =
      let sorted = sort_stable-perm runs_before scanned in
      (
        sort_stable runs_before scanned,
        refl,
        rw (length-perm sorted)
            (length-scan_due n now (order.tasks (values s.tasks)) [] (omega arith)),
        All-perm _ (List.Permᴰ.symm sorted)
            (scan_due-All n now (order.tasks (values s.tasks)) [] tt),
        sort_stable-IsSorted runs_before runs_before-IsWeakOrder scanned,
        λ room.
            let p = keep-perm (is_due now) (order.tasks_perm (values s.tasks)) in
            Permᴰ.trans sorted (
              rw
                (scan_due_all n now (order.tasks (values s.tasks)) []
                  (rw (length-perm p) (omega arith)))
                (List.Permᴰ.map clone_task p)),
      )
