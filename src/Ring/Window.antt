-- ===== src/Ring/Window.antt =====
-- The cells of a ring from a ticket on, going round at the capacity.
use native.Mathlib.Nat.{mod-add-mod, mod-eq_of_lt, mod-eq-sub-mod, add-mod_right, mod-lt}
use native.Mathlib.Decide.{dec_lt}
use cpp_mpmc_thread_pool.Base.{
  ℕ, zero, suc, ◌+◌, ◌-◌, ◌%◌, ◌≤◌, ◌<◌, ◌≡◌, ◌≢◌, sym, ap, ◌∙◌, some, List, [], ◌∷◌, ◌++◌, arith,
  length, get_elem?, set, get_elem?-set_self, get_elem?-set_ne,
}

-- Fewer steps than the capacity do not come back to the same index.
pub add-mod-ne : (t d cap : ℕ) → 0 < d → d < cap → (t + d) % cap ≢ t % cap
add-mod-ne t d cap h k = elim (dec_lt (t % cap + d) cap) [
  | yes p ↦ omega (arith, mod-add-mod t cap d, mod-eq_of_lt p)
  | no p ↦ omega (
    arith,
    mod-add-mod t cap d,
    mod-lt t {m = cap} (omega arith),
    mod-eq-sub-mod {n = t % cap + d} {m = cap} (omega arith),
    mod-eq_of_lt {n = t % cap + d - cap} {m = cap}
        (omega (arith, mod-lt t {m = cap} (omega arith))),
  )
]

module _ {ℓ} {C : Type ℓ} where
  -- From index `t % cap` on, the buffer holds `cells`.
  abbrev pub Window : List C → ℕ → ℕ → List C → Type ℓ
  Window buf cap t [] = Unit
  Window buf cap t (c ∷ cs) = (get_elem? buf (t % cap) ≡ some c) × Window buf cap (suc t) cs

  pub Window-lookup :
      (buf : List C) (cap t : ℕ) (front : List C) (c : C) (bs : List C)
      → Window buf cap t (front ++ c ∷ bs)
      → get_elem? buf ((t + length front) % cap) ≡ some c
  Window-lookup buf cap t [] c bs w = ap (λ u. get_elem? buf (u % cap)) (omega arith) ∙ w.0
  Window-lookup buf cap t (a ∷ front) c bs w =
      ap (λ u. get_elem? buf (u % cap)) (omega arith) ∙ Window-lookup buf cap (suc t) front c bs w.1

  pub Window-snoc :
      (buf : List C) (cap t : ℕ) (cs : List C) (c : C)
      → Window buf cap t cs
      → get_elem? buf ((t + length cs) % cap) ≡ some c
      → Window buf cap t (cs ++ c ∷ [])
  Window-snoc buf cap t [] c w e =
      (ap (λ u. get_elem? buf (u % cap)) {x = t} {y = t + 0} (omega arith) ∙ e, tt)
  Window-snoc buf cap t (d ∷ cs) c w e = (
    w.0,
    Window-snoc buf cap (suc t) cs c w.1 (
        ap (λ u. get_elem? buf (u % cap)) {x = suc t + length cs} {y = t + suc (length cs)}
          (omega arith)
        ∙ e),
  )

  -- A full round later the oldest cell comes last.
  pub Window-rotate :
      (buf : List C) (cap t : ℕ) (c : C) (cs : List C)
      → length (c ∷ cs) ≡ cap
      → Window buf cap t (c ∷ cs)
      → Window buf cap (suc t) (cs ++ c ∷ [])
  Window-rotate buf cap t c cs full w = Window-snoc buf cap (suc t) cs c w.1 (
      ap (get_elem? buf) (
        ap (λ u. u % cap) {x = suc t + length cs} {y = t + cap} (omega arith) ∙ add-mod_right t cap)
      ∙ w.0)

  -- A write outside a window does not show in it.
  Window-set_away :
      (buf : List C) (cap u : ℕ) (v : C) (t : ℕ) (cs : List C)
      → u < t
      → t + length cs ≤ u + cap
      → Window buf cap t cs
      → Window (set buf (u % cap) v) cap t cs
  Window-set_away buf cap u v t [] h k w = tt
  Window-set_away buf cap u v t (c ∷ cs) h k w = (
    get_elem?-set_ne buf (u % cap) (t % cap) v (λ e.
          add-mod-ne u (t - u) cap (omega arith) (omega arith)
            (ap (λ s. s % cap) {x = u + (t - u)} {y = t} (omega arith) ∙ sym e))
        ∙ w.0,
    Window-set_away buf cap u v (suc t) cs (omega arith) (omega arith) w.1,
  )

  -- A write at the `i`-th cell of a window that is not longer than the buffer.
  pub Window-set :
      (buf : List C) (cap u t i : ℕ) (v : C) (cs : List C)
      → u ≡ t + i
      → length buf ≡ cap
      → length cs ≤ cap
      → i < length cs
      → Window buf cap t cs
      → Window (set buf (u % cap) v) cap t (set cs i v)
  Window-set buf cap u t i v [] e len fits lt w = absurd (omega arith)
  Window-set buf cap u t zero v (c ∷ cs) e len fits lt w = (
    ap (λ s. get_elem? (set buf (u % cap) v) (s % cap)) {x = t} {y = u} (omega arith)
        ∙ get_elem?-set_self buf (u % cap) v (omega (arith, mod-lt u {m = cap} (omega arith))),
    Window-set_away buf cap u v (suc t) cs (omega arith) (omega arith) w.1,
  )
  Window-set buf cap u t (suc i) v (c ∷ cs) e len fits lt w = (
    get_elem?-set_ne buf (u % cap) (t % cap) v
          (rw e (add-mod-ne t (suc i) cap (omega arith) (omega arith)))
        ∙ w.0,
    Window-set buf cap u (suc t) i v cs (omega arith) len (omega arith) (omega arith) w.1,
  )
