-- ===== src/Routing/Choice.antt =====
-- What `select` returns.
use msos_autobuilder.Prelude.{
  ◌≡◌, refl, sym, ◌∙◌, subst, ◌&&◌, true, false, List, [], ◌∷◌, All, Any, arith, keep, Bool-cases,
  inl, inr, ◌⊎◌, ◌↔◌, ok, err, Text, all, text_mem, ◌==◌, ==_iff,
}
use msos_autobuilder.Models.{BuildTask}
use msos_autobuilder.Routing.{
  WorkerBackend, is_compatible, sort_key, key_lt, pick, min_by_key, first_choice, select,
  unsupported_task,
}
use msos_autobuilder.Routing.Order.{key_lt_irrefl, key_lt_trans}

-- The backend stands in the list.
abbrev pub Listed : WorkerBackend → List WorkerBackend → Type 0
Listed b = Any (λ c. c ≡ b)

module _ (task : BuildTask) where
  -- No backend of the list comes before `b`.
  abbrev pub IsLeast : WorkerBackend → List WorkerBackend → Type 0
  IsLeast b = All (λ c. key_lt (sort_key task c) (sort_key task b) ≡ false)

  pick_cases : (best b : WorkerBackend) → (pick task best b ≡ best) ⊎ (pick task best b ≡ b)
  unfolding pick
  pick_cases best b = ground arith

  pick-le_new :
      (best b : WorkerBackend) → key_lt (sort_key task b) (sort_key task (pick task best b)) ≡ false
  unfolding pick
  pick-le_new best b = ground (arith, key_lt_irrefl (sort_key task b))

  pick-le :
      (best b x : WorkerBackend)
      → key_lt (sort_key task x) (sort_key task best) ≡ false
      → key_lt (sort_key task x) (sort_key task (pick task best b)) ≡ false
  unfolding pick
  pick-le best b x h =
      ground (arith, key_lt_trans (sort_key task x) (sort_key task b) (sort_key task best))

  -- The smallest is no greater than what is no greater than the first.
  min_by_key-le :
      (best : WorkerBackend) (bs : List WorkerBackend) (x : WorkerBackend)
      → key_lt (sort_key task x) (sort_key task best) ≡ false
      → key_lt (sort_key task x) (sort_key task (min_by_key task best bs)) ≡ false
  unfolding min_by_key
  min_by_key-le best [] x h = h
  min_by_key-le best (b ∷ bs) x h = min_by_key-le (pick task best b) bs x (pick-le best b x h)

  min_by_key-IsLeast :
      (best : WorkerBackend) (bs : List WorkerBackend) → IsLeast (min_by_key task best bs) bs
  unfolding min_by_key
  min_by_key-IsLeast best [] = tt
  min_by_key-IsLeast best (b ∷ bs) = (
    min_by_key-le (pick task best b) bs b (pick-le_new best b),
    min_by_key-IsLeast (pick task best b) bs,
  )

  min_by_key-Listed :
      (best : WorkerBackend) (bs : List WorkerBackend)
      → Listed (min_by_key task best bs) (best ∷ bs)
  unfolding min_by_key
  min_by_key-Listed best [] = inl refl
  min_by_key-Listed best (b ∷ bs) = elim (min_by_key-Listed (pick task best b) bs) [
    | inl e ↦ elim (pick_cases best b) [ inl p ↦ inl (sym p ∙ e) | inr q ↦ inr (inl (sym q ∙ e)) ]
    | inr later ↦ inr (inr later)
  ]

  first_choice_lem :
      (bs : List WorkerBackend) (b : WorkerBackend)
      → first_choice task bs ≡ ok b
      → Listed b bs × IsLeast b bs
  unfolding first_choice
  first_choice_lem [] b h = absurd (ground arith)
  first_choice_lem (x ∷ bs) b h =
      let e : min_by_key task x bs ≡ b = ground arith in
      subst (λ m. Listed m (x ∷ bs) × IsLeast m (x ∷ bs)) e
        (
          min_by_key-Listed x bs,
          (min_by_key-le x bs x (key_lt_irrefl (sort_key task x)), min_by_key-IsLeast x bs),
        )

  Listed-keep :
      (b : WorkerBackend) (bs : List WorkerBackend)
      → Listed b (keep (is_compatible task) bs)
      → Listed b bs × (is_compatible task b ≡ true)
  unfolding keep
  Listed-keep b [] h = absurd h
  Listed-keep b (c ∷ bs) h = elim (Bool-cases (is_compatible task c)) [
    | inl fits ↦ elim (rw fits at h) [
      | inl e ↦ (inl e, rw (← e) fits)
      | inr later ↦ let (m, k) = Listed-keep b bs later in (inr m, k)
    ]
    | inr not_fit ↦ let (m, k) = Listed-keep b bs (rw not_fit at h) in (inr m, k)
  ]

  IsLeast-keep :
      (b : WorkerBackend) (bs : List WorkerBackend)
      → IsLeast b (keep (is_compatible task) bs)
      → All (λ c. (is_compatible task c && key_lt (sort_key task c) (sort_key task b)) ≡ false) bs
  unfolding keep
  IsLeast-keep b [] h = tt
  IsLeast-keep b (c ∷ bs) h = elim (Bool-cases (is_compatible task c)) [
    | inl fits ↦ let (first, rest) = kept fits in (rw fits first, IsLeast-keep b bs rest)
    | inr not_fit ↦ (rw not_fit, IsLeast-keep b bs (rw not_fit at h))
  ]
    where
      kept : is_compatible task c ≡ true → IsLeast b (c ∷ keep (is_compatible task) bs)
      kept fits = rw fits at h

  -- The backend that `select` returns is one of the router's, supports the task and claims it; and
  -- of the backends that do, none has a smaller key: within the preferred cost first, then the lower
  -- cost, then the smaller identifier.
  pub select_lem :
      (backends : List WorkerBackend) (b : WorkerBackend)
      → select task backends ≡ ok b
      → Listed b backends
        × (is_compatible task b ≡ true)
        × All
            (λ c. (is_compatible task c && key_lt (sort_key task c) (sort_key task b)) ≡ false)
            backends
  unfolding select
  select_lem backends b h =
      let (listed, least) = first_choice_lem (keep (is_compatible task) backends) b h in
      let (listed', compatible) = Listed-keep b backends listed in
      (listed', compatible, IsLeast-keep b backends least)

  -- The backend has every capability that the lane requires, and claims the task.
  abbrev pub Supports : WorkerBackend → Type 0
  Supports b =
      All (λ required. Any (λ capability. capability ≡ required) b.capabilities.capabilities)
        task.lane.required_capabilities
      × (b.claim task ≡ true)

  text_mem-Any : (t : Text) (xs : List Text) → text_mem t xs ≡ true ↔ Any (λ x. x ≡ t) xs
  unfolding text_mem
  text_mem-Any t [] = (λ h. absurd (ground arith), λ h. absurd h)
  text_mem-Any t (x ∷ xs) = (
    λ h. elim (Bool-cases (x == t)) [
      | inl same ↦ inl ((==_iff x t).0 same)
      | inr other ↦ inr ((text_mem-Any t xs).0 (ground arith))
    ],
    λ m. elim m [
      | inl same ↦ ground (arith, ==_iff x t)
      | inr later ↦ let k = (text_mem-Any t xs).1 later in ground arith
    ],
  )

  has_all :
      (required capabilities : List Text)
      → all (λ c. text_mem c capabilities) required ≡ true
        ↔ All (λ r. Any (λ c. c ≡ r) capabilities) required
  unfolding all
  has_all [] capabilities = (λ h. tt, λ h. refl)
  has_all (r ∷ required) capabilities = (
    λ h. (
      (text_mem-Any r capabilities).0 (ground arith),
      (has_all required capabilities).0 (ground arith),
    ),
    λ (first, rest).
        (let k = (text_mem-Any r capabilities).1 first in
          let l = (has_all required capabilities).1 rest in ground arith),
  )

  is_compatible-Supports : (b : WorkerBackend) → is_compatible task b ≡ true ↔ Supports b
  unfolding is_compatible
  is_compatible-Supports b = (
    λ h. ((has_all _ _).0 (ground arith), ground arith),
    λ (able, claims). (let k = (has_all _ _).1 able in ground arith),
  )

  -- `select` raises, naming the task, exactly if no backend of the router has all the capabilities that
  -- the task's lane requires and claims the task.
  pub select-unsupported_task :
      (backends : List WorkerBackend)
      → select task backends ≡ err (unsupported_task task.task_id)
        ↔ All (λ b. ¬ Supports b) backends
  unfolding select first_choice keep
  select-unsupported_task [] = (λ h. tt, λ h. refl)
  select-unsupported_task (b ∷ backends) = elim (Bool-cases (is_compatible task b)) [
    | inl fits ↦ (
      λ h. absurd (let k = rw fits at h in cc),
      λ h. absurd (h.0 ((is_compatible-Supports b).0 fits)),
    )
    | inr not_fit ↦
        let (there, back) = select-unsupported_task backends in
        (
          λ h. (
            λ supports. absurd (let k = (is_compatible-Supports b).1 supports in ground arith),
            there (rw not_fit at h),
          ),
          λ h. rw not_fit (back (h.1)),
        )
  ]
