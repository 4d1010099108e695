-- ===== src/Logger/Once/Single.antt =====
-- How many loggers `EnsureInitialized` of src/logger.cpp builds.
use cpp_mpmc_thread_pool.Base.{
  ℕ, zero, suc, ◌+◌, ◌≤◌, ◌≡◌, refl, ap, ◌∙◌, inl, inr, ◌==◌, Bool, true, false, Option, none, some,
  List, [], ◌∷◌, arith, get_elem?, if◌then◌else◌, Bool-cases, Option-cases,
}
use cpp_mpmc_thread_pool.Base.Totals.{total, total-set, total_le, total_le_add, total-lookup}
use cpp_mpmc_thread_pool.Logger.Once.{
  Caller, arriving, locking, looking, building, storing, returned, thrown, Race, first_look,
  take_lock, second_look, proceed, return_to, run, arrivals, opening,
}

abbrev inside : Caller → ℕ
inside looking = 1
inside building = 1
inside (storing n) = 1
inside _ = 0

abbrev stores : Caller → ℕ
stores (storing n) = 1
stores _ = 0

abbrev wrong : Option ℕ → Caller → ℕ
wrong none (returned n) = 1
wrong (some m) (returned n) = if n == m then 0 else 1
wrong (some m) building = 1
wrong (some m) (storing n) = 1
wrong _ _ = 0

abbrev there : Option ℕ → ℕ
there none = 0
there (some n) = 1

abbrev taken : Bool → ℕ
taken false = 0
taken true = 1

pub record Single (r : Race) : Type 0 where
  pub one_inside : total inside r.callers ≡ taken r.locked
  pub counted : r.built ≡ there r.global + total stores r.callers
  pub none_wrong : total (wrong r.global) r.callers ≡ 0

stores-inside : (c : Caller) → stores c ≤ inside c
stores-inside c = ground arith

stores-wrong : (m : ℕ) (c : Caller) → stores c ≤ wrong (some m) c
stores-wrong m c = ground arith

wrong_stored : (m : ℕ) (c : Caller) → wrong (some m) c ≤ wrong none c + inside c
wrong_stored m c = ground arith

module _ (r : Race) (s : Single r) (k : ℕ) (c : Caller) (at : get_elem? r.callers k ≡ some c) where
  -- A move that leaves the logger alone.
  move-Single :
      (l : Bool) (b : ℕ) (d : Caller)
      → taken l + inside c ≡ taken r.locked + inside d
      → b + stores c ≡ r.built + stores d
      → wrong r.global d ≡ 0
      → Single (return_to k (record r { locked = l; built = b }, d))
  move-Single l b d i n w = record {
    one_inside = omega (arith, s.one_inside, i, total-set inside r.callers k c d at);
    counted = omega (arith, s.counted, n, total-set stores r.callers k c d at);
    none_wrong = omega (arith, s.none_wrong, w, total-set (wrong r.global) r.callers k c d at);
  }

  holds_lock : inside c ≡ 1 → r.locked ≡ true
  holds_lock i =
      let h = total-lookup inside r.callers k c at in
      elim (Bool-cases r.locked) [
        | inl e ↦ e
        | inr e ↦ absurd (omega (arith, i, h, s.one_inside, ap taken e))
      ]

  right : wrong r.global c ≡ 0
  right = omega (arith, total-lookup (wrong r.global) r.callers k c at, s.none_wrong)

same : (n : ℕ) → wrong (some n) (returned n) ≡ 0
same n = ground arith

harmless : (g : Option ℕ) → (wrong g looking ≡ 0) × (wrong g locking ≡ 0) × (wrong g thrown ≡ 0)
harmless none = (refl, refl, refl)
harmless (some n) = (refl, refl, refl)

storing_right :
    (g : Option ℕ) (n : ℕ) → wrong g building ≡ 0 → (wrong g (storing n) ≡ 0) × (g ≡ none)
storing_right none n e = (refl, refl)
storing_right (some m) n e = absurd (omega (arith, e))

storing_none : (g : Option ℕ) (n : ℕ) → wrong g (storing n) ≡ 0 → g ≡ none
storing_none none n e = refl
storing_none (some m) n e = absurd (omega (arith, e))

first-Single :
    (r : Race)
    → Single r
    → (k : ℕ) → get_elem? r.callers k ≡ some arriving
    → (g : Option ℕ) → r.global ≡ g
    → Single (return_to k (first_look r g))
unfolding first_look
first-Single r s k at none e =
    move-Single r s k arriving at r.locked r.built locking refl refl (harmless r.global).1
first-Single r s k at (some n) e =
    move-Single r s k arriving at r.locked r.built (returned n) refl refl
      (ap (λ g. wrong g (returned n)) e ∙ same n)

lock-Single :
    (r : Race)
    → Single r
    → (k : ℕ) → get_elem? r.callers k ≡ some locking
    → (b : Bool) → r.locked ≡ b
    → Single (return_to k (take_lock r b))
unfolding take_lock
lock-Single r s k at true e =
    move-Single r s k locking at r.locked r.built locking refl refl (harmless r.global).1
lock-Single r s k at false e =
    move-Single r s k locking at true r.built looking (omega (arith, ap taken e)) refl
      (harmless r.global).0

second-Single :
    (r : Race)
    → Single r
    → (k : ℕ) → get_elem? r.callers k ≡ some looking
    → (g : Option ℕ) → r.global ≡ g
    → Single (return_to k (second_look r g))
unfolding second_look
second-Single r s k at none e =
    move-Single r s k looking at r.locked r.built building refl refl (ap (λ g. wrong g building) e)
second-Single r s k at (some n) e =
    move-Single r s k looking at false r.built (returned n)
      (omega (arith, ap taken (holds_lock r s k looking at refl))) refl
      (ap (λ g. wrong g (returned n)) e ∙ same n)

store-Single :
    (r : Race)
    → Single r
    → (k n : ℕ) → get_elem? r.callers k ≡ some (storing n)
    → Single (return_to k (record r { global = some n; locked = false }, returned n))
store-Single r s k n at =
    let w = storing_none r.global n (right r s k (storing n) at) in
    let l = ap taken (holds_lock r s k (storing n) at refl) in
    let le = total_le_add (wrong (some n)) (wrong none) inside (wrong_stored n) r.callers in
    record {
      one_inside =
          omega (arith, s.one_inside, l, total-set inside r.callers k (storing n) (returned n) at);
      counted =
          omega (
            arith,
            s.counted,
            ap there w,
            total-set stores r.callers k (storing n) (returned n) at,
          );
      none_wrong = omega (
        arith,
        s.one_inside,
        l,
        le,
        same n,
        s.none_wrong,
        ap (λ g. total (wrong g) r.callers) w,
        total-set (wrong (some n)) r.callers k (storing n) (returned n) at,
      );
    }

proceed-Single :
    (r : Race)
    → Single r
    → (throws : Bool) (k : ℕ) (c : Caller) → get_elem? r.callers k ≡ some c
    → Single (return_to k (proceed r throws c))
unfolding proceed
proceed-Single r s t k arriving at = first-Single r s k at r.global refl
proceed-Single r s t k locking at = lock-Single r s k at r.locked refl
proceed-Single r s t k looking at = second-Single r s k at r.global refl
proceed-Single r s true k building at =
    move-Single r s k building at false r.built thrown
      (omega (arith, ap taken (holds_lock r s k building at refl))) refl (harmless r.global).2
proceed-Single r s false k building at =
    move-Single r s k building at r.locked (suc r.built) (storing r.built) refl (omega arith)
      (storing_right r.global r.built (right r s k building at)).0
proceed-Single r s t k (storing n) at = store-Single r s k n at
proceed-Single r s t k (returned n) at =
    move-Single r s k (returned n) at r.locked r.built (returned n) refl refl
      (right r s k (returned n) at)
proceed-Single r s t k thrown at =
    move-Single r s k thrown at r.locked r.built thrown refl refl (harmless r.global).2

run-Single : (r : Race) → Single r → (es : List (ℕ × Bool)) → Single (run r es)
unfolding run
run-Single r s [] = s
run-Single r s ((k, t) ∷ es) = elim (Option-cases (get_elem? r.callers k)) [
  | inl e ↦ rw (e, run) (run-Single r s es)
  | inr (c, e) ↦
      rw (e, run) (run-Single (return_to k (proceed r t c)) (proceed-Single r s t k c e) es)
]

arrivals_none : (f : Caller → ℕ) → f arriving ≡ 0 → (n : ℕ) → total f (arrivals n) ≡ 0
arrivals_none f e zero = refl
arrivals_none f e (suc n) = omega (arith, e, arrivals_none f e n)

taken_le : (b : Bool) → taken b ≤ 1
taken_le b = ground arith

at_most_one : (r : Race) → Single r → r.built ≤ 1
at_most_one r s = elim (Option-cases r.global) [
  | inl e ↦ omega (
    arith,
    s.counted,
    ap there e,
    s.one_inside,
    taken_le r.locked,
    total_le stores inside stores-inside r.callers,
  )
  | inr (m, e) ↦ omega (
    arith,
    s.counted,
    ap there e,
    s.none_wrong,
    ap (λ g. total (wrong g) r.callers) e,
    total_le stores (wrong (some m)) (stores-wrong m) r.callers,
  )
]

returned_right : (g : Option ℕ) (n : ℕ) → wrong g (returned n) ≡ 0 → g ≡ some n
returned_right none n e = absurd (omega (arith, e))
returned_right (some m) n e = ground (arith, e)

-- Whatever steps any number of threads take in `EnsureInitialized` on a global logger that is not
-- there yet, and whichever attempts to build one throw, at most one logger is built, and every
-- call that has returned a logger returned the one that is stored.
pub built_once :
    (n : ℕ) (es : List (ℕ × Bool))
    → ((run (opening n) es).built ≤ 1)
      × ((k l : ℕ)
          → get_elem? (run (opening n) es).callers k ≡ some (returned l)
          → (run (opening n) es).global ≡ some l)
built_once n es =
    let start : Single (opening n) = record {
      one_inside = arrivals_none inside refl n;
      counted = omega (arith, arrivals_none stores refl n);
      none_wrong = arrivals_none (wrong none) refl n;
    } in
    let s = run-Single (opening n) start es in
    (
      at_most_one (run (opening n) es) s,
      λ k l at.
          returned_right (run (opening n) es).global l
            (right (run (opening n) es) s k (returned l) at),
    )
