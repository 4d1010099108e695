-- ===== src/Ring/Concurrent/Cells.antt =====
-- Which cell a thread works on, and which cells a write leaves alone.
use native.Mathlib.Nat.{add-mod_right, mod-lt}
use native.Mathlib.Decide.{dec_lt}
use cpp_mpmc_thread_pool.Base.{
  ℕ, suc, ◌+◌, ◌-◌, ◌%◌, ◌≤◌, ◌<◌, ◌≡◌, ◌≢◌, sym, ap, ◌∙◌, ◌⊎◌, inl, inr, Option, none, some, List,
  arith, get_elem?, set, get_elem?-set_self, get_elem?-set_ne,
}
use cpp_mpmc_thread_pool.Ring.{Cell, Ring}
use cpp_mpmc_thread_pool.Ring.Window.{add-mod-ne}
use cpp_mpmc_thread_pool.Ring.Repr.{free_cell, Shape}
use cpp_mpmc_thread_pool.Ring.Concurrent.{
  Pc, idle, push_load, push_claim, push_build, push_publish, pop_load, pop_claim, pop_move,
  pop_release,
}
use cpp_mpmc_thread_pool.Ring.Concurrent.Invariant.{look, slot, Fine}

pub some_injective {ℓ} : {A : Type ℓ} (x y : A) → ◌≡◌ {A = Option A} (some x) (some y) → x ≡ y
some_injective x y e = cc

module _ {A : Type 0} (r : Ring A) where
  -- A round later the cell is the same.
  pub look_round : (t : ℕ) → look r (t + r.capacity) ≡ look r t
  look_round t = ap (get_elem? r.buffer) (add-mod_right t r.capacity)

  -- One ticket, one cell.
  pub look_seq : (t : ℕ) (c d : Cell A) → look r t ≡ some c → look r t ≡ some d → c.seq ≡ d.seq
  look_seq t c d e f = ap (λ (c : Cell A). c.seq) (some_injective c d (sym e ∙ f))

  abbrev pub written : ℕ → Cell A → Ring A
  written w v = record r { buffer = set r.buffer (w % r.capacity) v }

  pub look-written_self : Shape r → (w : ℕ) (v : Cell A) → look (written w v) w ≡ some v
  look-written_self s w v =
      get_elem?-set_self r.buffer (w % r.capacity) v
        (omega (arith, s.sized, s.large, mod-lt w {m = r.capacity} (omega (arith, s.large))))

  -- Two tickets less than a round apart have different cells.
  mod-ne :
      (b t w : ℕ)
      → b ≤ t
      → t < b + r.capacity
      → b ≤ w
      → w < b + r.capacity
      → w ≢ t
      → w % r.capacity ≢ t % r.capacity
  mod-ne b t w bt tb bw wb ne e = elim (dec_lt w t) [
    | yes less ↦
        add-mod-ne w (t - w) r.capacity (omega arith) (omega arith)
          (ap (λ (s : ℕ). s % r.capacity) {x = w + (t - w)} {y = t} (omega arith) ∙ sym e)
    | no more ↦ elim (dec_lt t w) [
      | yes less ↦
          add-mod-ne t (w - t) r.capacity (omega arith) (omega arith)
            (ap (λ (s : ℕ). s % r.capacity) {x = t + (w - t)} {y = w} (omega arith) ∙ e)
      | no same ↦ ne (omega arith)
    ]
  ]

  pub look-written_ne :
      (b t w : ℕ) (v : Cell A)
      → b ≤ t
      → t < b + r.capacity
      → b ≤ w
      → w < b + r.capacity
      → w ≢ t
      → look (written w v) t ≡ look r t
  look-written_ne b t w v bt tb bw wb ne =
      get_elem?-set_ne r.buffer (w % r.capacity) (t % r.capacity) v (mod-ne b t w bt tb bw wb ne)

-- A thread's own cell lies in the window, and its sequence number is neither that of a free cell nor
-- that of a full one.
pub record Busy {A : Type 0} (r : Ring A) (w : ℕ) : Type 0 where
  pub from : r.consumer_pos ≤ w
  pub to : w < r.consumer_pos + r.capacity
  pub cell : Cell A
  pub there : look r w ≡ some cell
  pub number :
      ((cell.seq ≡ w) × (w < r.producer_pos))
      ⊎ ((cell.seq + r.capacity ≡ suc w) × (r.producer_pos ≤ w))

module _ {A : Type 0} {r : Ring A} (xs : List A) (behind : r.consumer_pos ≤ r.producer_pos)
    (ahead : r.producer_pos ≤ r.consumer_pos + r.capacity) where
  pub slot-Busy : (q : Pc A) (w : ℕ) → Fine r xs q → slot r.capacity q ≡ some w → Busy r w
  slot-Busy idle w f e = absurd (cc)
  slot-Busy (push_load x at) w f e = absurd (cc)
  slot-Busy (push_claim x at seq) w f e = absurd (cc)
  slot-Busy (pop_load at) w f e = absurd (cc)
  slot-Busy (pop_claim at seq) w f e = absurd (cc)
  slot-Busy (push_build x at) w f e =
      let same : at ≡ w = some_injective at w e in
      record {
        from = omega arith;
        to = omega arith;
        cell = free_cell at;
        there = ap (look r) (sym same) ∙ f.3;
        number = inl (same, omega arith);
      }
  slot-Busy (push_publish x at) w f e =
      let same : at ≡ w = some_injective at w e in
      record {
        from = omega arith;
        to = omega arith;
        cell = record { seq = at; storage = some x };
        there = ap (look r) (sym same) ∙ f.3;
        number = inl (same, omega arith);
      }
  slot-Busy (pop_move at) w f e =
      let same : at + r.capacity ≡ w = some_injective (at + r.capacity) w e in
      record {
        from = omega arith;
        to = omega arith;
        cell = record { seq = suc at; storage = some f.2.0 };
        there = ap (look r) (sym same) ∙ look_round r at ∙ f.2.2;
        number = inr (omega arith, omega arith);
      }
  slot-Busy (pop_release at x) w f e =
      let same : at + r.capacity ≡ w = some_injective (at + r.capacity) w e in
      record {
        from = omega arith;
        to = omega arith;
        cell = record { seq = suc at; storage = none };
        there = ap (look r) (sym same) ∙ look_round r at ∙ f.3;
        number = inr (omega arith, omega arith);
      }
