-- ===== src/Logger/Once.antt =====
-- `EnsureInitialized` of src/logger.cpp, called by several threads at a time, one access at a time. The
-- loggers that are built are numbered.
pub mod Single
use cpp_mpmc_thread_pool.Base.{
  ℕ, zero, suc, ◌+◌, ◌≤◌, ◌≡◌, refl, ap, ◌∙◌, inl, inr, ◌==◌, Bool, true, false, Option, none, some,
  List, [], ◌∷◌, arith, get_elem?, set, if◌then◌else◌, Bool-cases, Option-cases,
}

-- A call: before its first look, before it has `g_logger_mtx`, before the second look, before it builds
-- a logger, before it stores the one it has built, and behind its end.
pub data Caller : Type 0 where
  arriving locking looking building : Caller
  storing : (n : ℕ) → Caller
  returned : (n : ℕ) → Caller
  thrown : Caller

pub record Race : Type 0 where
  pub global : Option ℕ
  pub locked : Bool
  pub built : ℕ
  pub callers : List Caller

-- A step of a caller; where it builds, `throws` tells whether that fails.
unfoldable pub first_look : Race → Option ℕ → Race × Caller
first_look r (some n) = (r, returned n)
first_look r none = (r, locking)

unfoldable pub take_lock : Race → Bool → Race × Caller
take_lock r true = (r, locking)
take_lock r false = (record r { locked = true }, looking)

unfoldable pub second_look : Race → Option ℕ → Race × Caller
second_look r (some n) = (record r { locked = false }, returned n)
second_look r none = (r, building)

unfoldable pub proceed : Race → Bool → Caller → Race × Caller
unfolding first_look take_lock second_look
proceed r throws arriving = first_look r r.global
proceed r throws locking = take_lock r r.locked
proceed r throws looking = second_look r r.global
proceed r throws building =
    if throws
    then (record r { locked = false }, thrown)
    else (record r { built = suc r.built }, storing r.built)
proceed r throws (storing n) = (record r { global = some n; locked = false }, returned n)
proceed r throws (returned n) = (r, returned n)
proceed r throws thrown = (r, thrown)

abbrev pub return_to : ℕ → Race × Caller → Race
return_to k (r, c) = record r { callers = set r.callers k c }

unfoldable pub run : Race → List (ℕ × Bool) → Race
unfolding proceed
run r [] = r
run r ((k, throws) ∷ es) = elim (get_elem? r.callers k) [
  | none ↦ run r es
  | some c ↦ run (return_to k (proceed r throws c)) es
]

-- That many calls that have not begun.
abbrev pub arrivals : ℕ → List Caller
arrivals zero = []
arrivals (suc n) = arriving ∷ arrivals n

abbrev pub opening : ℕ → Race
opening n = record { global = none; locked = false; built = 0; callers = arrivals n }
