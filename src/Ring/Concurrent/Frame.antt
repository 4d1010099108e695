-- ===== src/Ring/Concurrent/Frame.antt =====
-- A thread writes to its own cell: what that leaves to the other threads.
use mathlib.Core.Path.{subst}
use native.Mathlib.Decide.{ℕ_discrete}
use cpp_mpmc_thread_pool.Base.{
  ℕ, ◌+◌, ◌%◌, ◌≤◌, ◌<◌, ◌≡◌, ◌≢◌, refl, sym, ap, ◌∙◌, ◌⊎◌, inl, inr, Option, none, some, List,
  false, Bool-cases, ==→eq, eq→==, ◌==◌, arith, get_elem?, length-set, get_elem?-set_ne,
}
use cpp_mpmc_thread_pool.Ring.{Cell, Ring}
use cpp_mpmc_thread_pool.Ring.Repr.{full_cell, free_cell, Shape}
use cpp_mpmc_thread_pool.Ring.Concurrent.{
  Pc, idle, push_load, push_claim, push_build, push_publish, pop_load, pop_claim, pop_move,
  pop_release, update,
}
use cpp_mpmc_thread_pool.Ring.Concurrent.Invariant.{look, slot, Fine, Resting, Held, Inv}
use cpp_mpmc_thread_pool.Ring.Concurrent.Cells.{
  some_injective, look_round, look_seq, written, look-written_self, look-written_ne, Busy,
  slot-Busy,
}

pub none_ne_some : (u : ℕ) → ◌≡◌ {A = Option ℕ} none (some u) → ⊥
none_ne_some u e = cc

ne_of_test : (a b : ℕ) → (a == b) ≡ false → a ≢ b
ne_of_test a b e h = ground arith

-- The program counters behind a step of thread `i`.
module _ {A : Type 0} (pc : ℕ → Pc A) (i : ℕ) (q : Pc A) where
  pub update_self : update pc i q i ≡ q
  update_self = ground (arith, eq→== i i refl)

  pub update_ne : (j : ℕ) → i ≢ j → update pc i q j ≡ pc j
  update_ne j ne = ground (arith, ==→eq j i)

  pub update_all : (P : Pc A → Type 0) (j : ℕ) → P q → (i ≢ j → P (pc j)) → P (update pc i q j)
  update_all P j new old = elim (ℕ_discrete i j) [
    | yes same ↦ subst P (sym update_self ∙ ap (update pc i q) same) new
    | no other ↦ subst P (sym (update_ne j other)) (old other)
  ]

  -- Cells stay apart where the new one is no other thread's.
  pub update_alone :
      (cap : ℕ)
      → ((j k w : ℕ) → slot cap (pc j) ≡ some w → slot cap (pc k) ≡ some w → j ≡ k)
      → ((j w : ℕ) → slot cap q ≡ some w → slot cap (pc j) ≡ some w → i ≡ j)
      → (j k w : ℕ) → slot cap (update pc i q j) ≡ some w
      → slot cap (update pc i q k) ≡ some w
      → j ≡ k
  update_alone cap alone new j k w ej ek = elim (ℕ_discrete i j) [
    | yes ij ↦ elim (ℕ_discrete i k) [
      | yes ik ↦ sym ij ∙ ik
      | no nk ↦
          sym ij
          ∙ new k w (ap (slot cap) (sym update_self ∙ ap (update pc i q) ij) ∙ ej)
              (ap (slot cap) (sym (update_ne k nk)) ∙ ek)
    ]
    | no nj ↦ elim (ℕ_discrete i k) [
      | yes ik ↦
          sym (
            new j w (ap (slot cap) (sym update_self ∙ ap (update pc i q) ik) ∙ ek)
              (ap (slot cap) (sym (update_ne j nj)) ∙ ej))
          ∙ ik
      | no nk ↦
          alone j k w (ap (slot cap) (sym (update_ne j nj)) ∙ ej)
            (ap (slot cap) (sym (update_ne k nk)) ∙ ek)
    ]
  ]

  -- A cell that another thread works on stays its own.
  pub update-Held : (cap t j : ℕ) → i ≢ j → slot cap (pc j) ≡ some t → Held cap (update pc i q) t
  update-Held cap t j ne e = (j, ap (slot cap) (update_ne j ne) ∙ e)

module _ {A : Type 0} {r : Ring A} (xs : List A) (shape : Shape r)
    (behind : r.consumer_pos ≤ r.producer_pos)
    (ahead : r.producer_pos ≤ r.consumer_pos + r.capacity) {w : ℕ} (b : Busy r w) (v : Cell A) where
  kept :
      (t : ℕ)
      → r.consumer_pos ≤ t
      → t < r.consumer_pos + r.capacity
      → w ≢ t
      → look (written r w v) t ≡ look r t
  kept t lo hi ne = look-written_ne r r.consumer_pos t w v lo hi b.from b.to ne

  kept_ago :
      (t : ℕ)
      → t < r.consumer_pos
      → r.producer_pos ≤ t + r.capacity
      → w ≢ t + r.capacity
      → look (written r w v) t ≡ look r t
  kept_ago t lo hi ne =
      sym (look_round (written r w v) t)
      ∙ kept (t + r.capacity) (omega arith) (omega arith) ne
      ∙ look_round r t

  -- The cell is not free for the next producer, and not full for the next consumer.
  other_cell_producer : look r r.producer_pos ≡ some (free_cell r.producer_pos) → w ≢ r.producer_pos
  other_cell_producer e same =
      let h =
        look_seq r r.producer_pos b.cell (free_cell r.producer_pos)
          (ap (look r) (sym same) ∙ b.there) e in
      elim b.number [ inl (n, less) ↦ omega arith | inr (n, more) ↦ omega (arith, shape.large) ]

  other_cell_consumer :
      (x : A)
      → r.consumer_pos < r.producer_pos
      → look r r.consumer_pos ≡ some (full_cell r.consumer_pos x)
      → w ≢ r.consumer_pos
  other_cell_consumer x some_left e same =
      let h =
        look_seq r r.consumer_pos b.cell (full_cell r.consumer_pos x)
          (ap (look r) (sym same) ∙ b.there) e in
      elim b.number [ inl (n, less) ↦ omega arith | inr (n, more) ↦ omega arith ]

  Fine-kept : (q : Pc A) → Fine r xs q → slot r.capacity q ≢ some w → Fine (written r w v) xs q
  Fine-kept idle f ne = tt
  Fine-kept (push_load x at) f ne = f
  Fine-kept (push_claim x at seq) f ne = (
    f.0,
    f.1,
    λ e h.
        let (room, free) = f.2 e h in
        (room, kept r.producer_pos behind room (other_cell_producer free) ∙ free),
  )
  Fine-kept (push_build x at) f ne =
      (f.0, f.1, f.2, kept at f.0 (omega arith) (λ e. ne (ap some (sym e))) ∙ f.3)
  Fine-kept (push_publish x at) f ne =
      (f.0, f.1, f.2, kept at f.0 (omega arith) (λ e. ne (ap some (sym e))) ∙ f.3)
  Fine-kept (pop_load at) f ne = f
  Fine-kept (pop_claim at seq) f ne = (
    f.0,
    f.1,
    λ e h.
        let (left, found) = f.2 e h in
        let (x, claimed, full) = found in
        (
          left,
          (
            x,
            claimed,
            kept r.consumer_pos (omega arith) (omega (arith, shape.large))
                  (other_cell_consumer x left full)
                ∙ full,
          ),
        ),
  )
  Fine-kept (pop_move at) f ne =
      let (x, claimed, full) = f.2 in
      (f.0, f.1, (x, claimed, kept_ago at f.0 f.1 (λ e. ne (ap some (sym e))) ∙ full))
  Fine-kept (pop_release at x) f ne =
      (f.0, f.1, f.2, kept_ago at f.0 f.1 (λ e. ne (ap some (sym e))) ∙ f.3)

  Resting-kept :
      (t : ℕ)
      → r.consumer_pos ≤ t
      → t < r.consumer_pos + r.capacity
      → w ≢ t
      → Resting r xs t
      → Resting (written r w v) xs t
  Resting-kept t lo hi ne (inl (less, (x, claimed, full))) =
      inl (less, (x, claimed, kept t lo hi ne ∙ full))
  Resting-kept t lo hi ne (inr (more, free)) = inr (more, kept t lo hi ne ∙ free)

  written-Shape : Shape (written r w v)
  written-Shape = record {
    width = shape.width;
    power = shape.power;
    large = shape.large;
    masked = shape.masked;
    sized = length-set r.buffer (w % r.capacity) v ∙ shape.sized;
  }

  -- The sequence numbers stay small.
  bounded-kept :
      ((k : ℕ) (c : Cell A) → get_elem? r.buffer k ≡ some c → c.seq ≤ r.producer_pos + r.capacity)
      → v.seq ≤ r.producer_pos + r.capacity
      → (k : ℕ) (c : Cell A) → get_elem? (written r w v).buffer k ≡ some c
      → c.seq ≤ r.producer_pos + r.capacity
  bounded-kept h small k c e = elim (Bool-cases (w % r.capacity == k)) [
    | inl same ↦
        let s : w % r.capacity ≡ k = ==→eq _ _ same in
        let f : get_elem? (written r w v).buffer k ≡ some v =
          ap (get_elem? (written r w v).buffer) (sym s) ∙ look-written_self r shape w v in
        let g : v ≡ c = some_injective v c (sym f ∙ e) in
        omega (arith, ap (λ (c : Cell A). c.seq) g)
    | inr other ↦ h k c (
        sym (
          get_elem?-set_ne r.buffer (w % r.capacity) k v
            (λ s. ne_of_test (w % r.capacity) k other s))
        ∙ e)
  ]

-- Thread `i` writes `v` to its own cell and goes on to `q`.
module _ {A : Type 0} {r : Ring A} {pc : ℕ → Pc A} {xs : List A} (inv : Inv r pc xs) (i w : ℕ)
    (mine : slot r.capacity (pc i) ≡ some w) (v : Cell A) (q : Pc A) where
  pub write-Inv :
      v.seq ≤ r.producer_pos + r.capacity
      → Fine (written r w v) xs q
      → (slot r.capacity q ≡ some w) ⊎ ((slot r.capacity q ≡ none) × Resting (written r w v) xs w)
      → Inv (written r w v) (update pc i q) xs
  write-Inv small f next = record {
    shape = written-Shape xs inv.shape inv.behind inv.ahead b v;
    behind = inv.behind;
    ahead = inv.ahead;
    logged = inv.logged;
    bounded = bounded-kept xs inv.shape inv.behind inv.ahead b v inv.bounded small;
    fine = λ j. update_all pc i q (Fine (written r w v) xs) j f (λ other.
        Fine-kept xs inv.shape inv.behind inv.ahead b v (pc j) (inv.fine j)
          (λ e. other (inv.alone i j w mine e)));
    alone = update_alone pc i q r.capacity inv.alone (λ j u e h. elim next [
      | inl now ↦ inv.alone i j w mine (h ∙ ap some (some_injective u w (sym e ∙ now)))
      | inr (now, rest) ↦ absurd (none_ne_some u (sym now ∙ e))
    ]);
    cells = λ t lo hi. elim (ℕ_discrete w t) [
      | yes same ↦ elim next [
        | inl now ↦ inl (i, ap (slot r.capacity) (update_self pc i q) ∙ now ∙ ap some same)
        | inr (now, rest) ↦ inr (subst (Resting (written r w v) xs) same rest)
      ]
      | no other ↦ elim (inv.cells t lo hi) [
        | inl (j, e) ↦ inl (
            update-Held pc i q r.capacity t j
              (λ same.
                other (some_injective w t (sym mine ∙ ap (λ k. slot r.capacity (pc k)) same ∙ e)))
              e)
        | inr rest ↦ inr (Resting-kept xs inv.shape inv.behind inv.ahead b v t lo hi other rest)
      ]
    ];
  }
    where
      b : Busy r w
      b = slot-Busy xs inv.behind inv.ahead (pc i) w (inv.fine i) mine
