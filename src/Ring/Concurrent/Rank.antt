-- ===== src/Ring/Concurrent/Rank.antt =====
-- How far a thread is from the end of its call.
use mathlib.Core.Path.{subst}
use cpp_mpmc_thread_pool.Base.{
  ℕ, suc, ◌+◌, ◌-◌, ◌≤◌, ◌<◌, ◌≡◌, sym, ap, ◌∙◌, ◌⊎◌, inl, inr, false, ◌&&◌, some, List, arith, leb,
  ◌==◌, if◌then◌else◌, Bool-cases, ==→eq, eq→==,
}
use cpp_mpmc_thread_pool.Ring.{Cell, Ring}
use cpp_mpmc_thread_pool.Ring.Repr.{full_cell, free_cell}
use cpp_mpmc_thread_pool.Ring.Concurrent.{
  Pc, idle, push_load, push_claim, push_build, push_publish, pop_load, pop_claim, pop_move,
  pop_release, go, System, update, access,
}
use cpp_mpmc_thread_pool.Ring.Concurrent.Invariant.{look, Inv}
use cpp_mpmc_thread_pool.Ring.Concurrent.Cells.{look_round, look_seq}
use cpp_mpmc_thread_pool.Ring.Concurrent.Frame.{update_self}
use cpp_mpmc_thread_pool.Ring.Concurrent.Heads.{held-Busy}

module _ {A : Type 0} {r : Ring A} {pc : ℕ → Pc A} {xs : List A} (inv : Inv r pc xs) where
  window_seq :
      (t : ℕ) (c : Cell A)
      → r.consumer_pos ≤ t
      → t < r.consumer_pos + r.capacity
      → look r t ≡ some c
      → (c.seq ≤ t) ⊎ ((c.seq ≡ suc t) × (t < r.producer_pos))
  window_seq t c lo hi e = elim (inv.cells t lo hi) [
    | inl (i, h) ↦
        let b = held-Busy inv t i h in
        let g = look_seq r t c b.cell e b.there in
        elim b.number [
          | inl (n, less) ↦ inl (omega arith)
          | inr (n, more) ↦ inl (omega (arith, inv.shape.large))
        ]
    | inr (inl (less, found)) ↦ inr (look_seq r t c (full_cell t found.0) e found.2, less)
    | inr (inr (more, free)) ↦ inl (omega (arith, look_seq r t c (free_cell t) e free))
  ]

  pub consumer_seq : (c : Cell A) → look r r.consumer_pos ≡ some c → c.seq ≤ suc r.consumer_pos
  consumer_seq c e =
      elim (window_seq r.consumer_pos c (omega arith) (omega (arith, inv.shape.large)) e) [
        | inl low ↦ omega arith
        | inr (same, less) ↦ omega arith
      ]

  pub producer_seq : (c : Cell A) → look r r.producer_pos ≡ some c → c.seq ≤ r.producer_pos
  producer_seq c e = elim (Bool-cases (r.producer_pos == r.consumer_pos + r.capacity)) [
    | inl round ↦
        let same = ==→eq r.producer_pos (r.consumer_pos + r.capacity) round in
        omega (
          arith,
          same,
          inv.shape.large,
          consumer_seq c (sym (look_round r r.consumer_pos) ∙ ap (look r) (sym same) ∙ e),
        )
    | inr other ↦
        elim (window_seq r.producer_pos c inv.behind
          (ground (arith, inv.ahead, eq→== r.producer_pos (r.consumer_pos + r.capacity))) e) [
            | inl low ↦ low
            | inr (same, less) ↦ absurd (omega arith)
          ]
  ]

module _ {A : Type 0} where
  -- How many steps of its own a thread is away from the end of its call, at most.
  abbrev pub rank : Ring A → Pc A → ℕ
  rank r idle = 0
  rank r (push_load x at) = if at == r.producer_pos then 4 else 6
  rank r (push_claim x at seq) = if (at == r.producer_pos) && leb seq at then 3 else 5
  rank r (push_build x at) = 2
  rank r (push_publish x at) = 1
  rank r (pop_load at) = if at == r.consumer_pos then 4 else 6
  rank r (pop_claim at seq) = if (at == r.consumer_pos) && leb seq (suc at) then 3 else 5
  rank r (pop_move at) = 2
  rank r (pop_release at x) = 1

  pub rank_le : (r : Ring A) (q : Pc A) → rank r q ≤ 6
  rank_le r idle = omega arith
  rank_le r (push_load x at) = ground arith
  rank_le r (push_claim x at seq) = ground arith
  rank_le r (push_build x at) = omega arith
  rank_le r (push_publish x at) = omega arith
  rank_le r (pop_load at) = ground arith
  rank_le r (pop_claim at seq) = ground arith
  rank_le r (pop_move at) = omega arith
  rank_le r (pop_release at x) = omega arith

  -- The step of thread `i` from `q` brings it nearer.
  abbrev pub Nearer : System A → ℕ → Pc A → Type 0
  Nearer s i q =
      (t : System A) × (access s i q (go false) ≡ some t)
      × (rank t.ring (t.pc i) ≤ rank s.ring q - 1)

module _ {A : Type 0} (s : System A) (i : ℕ) where
  pub goto-rank : (r : Ring A) (n : ℕ) (q : Pc A) → rank r q ≤ n → rank r (update s.pc i q i) ≤ n
  goto-rank r n q le = subst (λ p. rank r p ≤ n) (sym (update_self s.pc i q)) le
