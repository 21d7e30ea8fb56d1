-- ===== src/Poller/Selection.antt =====
-- Which orders one cycle polls.
use quantpaca.Base.{
  ℕ, suc, ◌≤◌, ◌<◌, ◌≡◌, refl, ◌∙◌, ap, ◌↔◌, inl, inr, true, not, List, [], ◌∷◌, arith, length,
  take, length-take, Bool-cases, ltb→lt, lt→ltb,
}
use mathlib.Core.List.{Perm}
use mathlib.Core.List.Perm
use quantpaca.Js.Number.{Number, lt, le, is_finite, num}
use quantpaca.Js.Order.{le_trans, le-eq-not-lt, le_of_lt}
use quantpaca.Trading.Types.{PipelineTrade}
use quantpaca.Poller.Targets.{
  PollTarget, sortable_time, insert_target, sort_targets, candidates, select_poll_targets,
}

abbrev time : PollTarget → Number
time t = sortable_time t.timestamp

-- No target is older than one before it.
abbrev AllFrom : Number → List PollTarget → Type 0
AllFrom n [] = Unit
AllFrom n (t ∷ ts) = (le n (time t) ≡ true) × AllFrom n ts

abbrev pub IsOldestFirst : List PollTarget → Type 0
IsOldestFirst [] = Unit
IsOldestFirst (t ∷ ts) = AllFrom (time t) ts × IsOldestFirst ts

sortable_time-finite : (n : Number) → is_finite (sortable_time n) ≡ true
unfolding sortable_time num is_finite
sortable_time-finite n = ground arith

AllFrom-trans : (m n : Number) (ts : List PollTarget) → le m n ≡ true → AllFrom n ts → AllFrom m ts
AllFrom-trans m n [] h a = tt
AllFrom-trans m n (t ∷ ts) h (a, as') = (le_trans m n (time t) h a, AllFrom-trans m n ts h as')

AllFrom-insert_target :
    (n : Number) (t : PollTarget) (ts : List PollTarget)
    → le n (time t) ≡ true
    → AllFrom n ts
    → AllFrom n (insert_target t ts)
unfolding insert_target
AllFrom-insert_target n t [] h a = (h, tt)
AllFrom-insert_target n t (u ∷ us) h a = ground (arith, AllFrom-insert_target n t us h a.1)

IsOldestFirst-insert_target :
    (t : PollTarget) (ts : List PollTarget) → IsOldestFirst ts → IsOldestFirst (insert_target t ts)
unfolding insert_target
IsOldestFirst-insert_target t [] h = (tt, tt)
IsOldestFirst-insert_target t (u ∷ us) (a, h) = elim (Bool-cases (lt (time u) (time t))) [
  | inl older ↦ rw older (
    AllFrom-insert_target (time u) t us (le_of_lt _ _ older) a,
    IsOldestFirst-insert_target t us h,
  )
  | inr younger ↦
      let before =
        le-eq-not-lt (time t) (time u) (sortable_time-finite t.timestamp)
          (sortable_time-finite u.timestamp)
        ∙ ap not younger in
      rw younger ((before, AllFrom-trans (time t) (time u) us before a), (a, h))
]

sort_targets-IsOldestFirst : (ts : List PollTarget) → IsOldestFirst (sort_targets ts)
unfolding sort_targets
sort_targets-IsOldestFirst [] = tt
sort_targets-IsOldestFirst (t ∷ ts) =
    IsOldestFirst-insert_target t (sort_targets ts) (sort_targets-IsOldestFirst ts)

insert_target-perm : (t : PollTarget) (ts : List PollTarget) → Perm (insert_target t ts) (t ∷ ts)
unfolding insert_target
insert_target-perm t [] = Perm.refl (t ∷ [])
insert_target-perm t (u ∷ us) = elim (Bool-cases (lt (time u) (time t))) [
  | inl older ↦ rw older (Perm.trans (Perm.cons u (insert_target-perm t us)) (Perm.swap t u us))
  | inr younger ↦ rw younger (Perm.refl (t ∷ u ∷ us))
]

sort_targets-perm : (ts : List PollTarget) → Perm (sort_targets ts) ts
unfolding sort_targets
sort_targets-perm [] = Perm.refl []
sort_targets-perm (t ∷ ts) =
    Perm.trans (insert_target-perm t (sort_targets ts)) (Perm.cons t (sort_targets-perm ts))

length-insert_target :
    (t : PollTarget) (ts : List PollTarget) → length (insert_target t ts) ≡ suc (length ts)
unfolding insert_target
length-insert_target t [] = refl
length-insert_target t (u ∷ us) = ground (arith, length-insert_target t us)

length-sort_targets : (ts : List PollTarget) → length (sort_targets ts) ≡ length ts
unfolding sort_targets
length-sort_targets [] = refl
length-sort_targets (t ∷ ts) =
    length-insert_target t (sort_targets ts) ∙ ap suc (length-sort_targets ts)

-- The selection is the front of an arrangement of all candidates, oldest first, as long as the cap
-- allows, and it is marked as capped exactly if some candidate is left out.
pub select_poll_targets_lem :
    (trades : List PipelineTrade) (max_orders : ℕ)
    → let selection = select_poll_targets trades max_orders in
      (arranged : List PollTarget) × Perm arranged (candidates trades)
      × IsOldestFirst arranged
      × (selection.targets ≡ take max_orders arranged)
      × (length selection.targets ≤ max_orders)
      × ((selection.capped ≡ true) ↔ (length selection.targets < length arranged))
unfolding select_poll_targets
select_poll_targets_lem trades max_orders =
    let arranged = sort_targets (candidates trades) in
    let front = length-take max_orders arranged in
    let whole = length-sort_targets (candidates trades) in
    (
      arranged,
      sort_targets-perm (candidates trades),
      sort_targets-IsOldestFirst (candidates trades),
      refl,
      omega (arith, front),
      (
        λ h. omega (arith, front, whole, ltb→lt max_orders (length (candidates trades)) h),
        λ h. lt→ltb max_orders (length (candidates trades)) (omega (arith, front, whole)),
      ),
    )
