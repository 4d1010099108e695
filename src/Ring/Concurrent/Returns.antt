-- ===== src/Ring/Concurrent/Returns.antt =====
-- The tickets that `TryPop` has returned, step by step.
use native.Mathlib.Decide.{ℕ_discrete}
use cpp_mpmc_thread_pool.Base.{
  ℕ, suc, ◌<◌, ◌≡◌, ◌≢◌, refl, sym, ap, ◌∙◌, inl, inr, none, some, List, [], ◌∷◌, ◌++◌, arith,
  get_elem?, eq→==, ==→eq,
}
use cpp_mpmc_thread_pool.Ring.Concurrent.{Pc, update}
use cpp_mpmc_thread_pool.Ring.Concurrent.Invariant.{consuming, times, AllClaimed, Returned}
use cpp_mpmc_thread_pool.Ring.Concurrent.Cells.{some_injective}
use cpp_mpmc_thread_pool.Ring.Concurrent.Frame.{none_ne_some, update_self, update_ne, update_all}
use cpp_mpmc_thread_pool.Ring.Concurrent.Moves.{get_elem?-append_some}

times-same :
    {A : Type 0} (t : ℕ) (x : A) (rs : List (ℕ × A)) → times t ((t, x) ∷ rs) ≡ suc (times t rs)
times-same t x rs = ground (arith, eq→== t t refl)

times-other :
    {A : Type 0} (t u : ℕ) (x : A) (rs : List (ℕ × A)) → t ≢ u → times t ((u, x) ∷ rs) ≡ times t rs
times-other t u x rs ne = ground (arith, ==→eq t u)

pub AllClaimed-append :
    {A : Type 0} (xs ys : List A) (rs : List (ℕ × A)) → AllClaimed xs rs → AllClaimed (xs ++ ys) rs
AllClaimed-append xs ys [] a = tt
AllClaimed-append xs ys ((t, x) ∷ rs) a =
    (get_elem?-append_some xs ys t a.0, AllClaimed-append xs ys rs a.1)

module _ {A : Type 0} {c : ℕ} {pc : ℕ → Pc A} {xs : List A} {rs : List (ℕ × A)}
    (v : Returned c pc xs rs) (i : ℕ) where
  -- The thread keeps its ticket, or has none before and after.
  pub same-Returned :
      (q : Pc A) (ys : List A)
      → AllClaimed ys rs
      → consuming q ≡ consuming (pc i)
      → Returned c (update pc i q) ys rs
  same-Returned q ys a e = record {
    elements = a;
    later = v.later;
    pending = λ j t.
        update_all pc i q (λ p. consuming p ≡ some t → times t rs ≡ 0) j
          (λ h. v.pending i t (sym e ∙ h)) (λ other. v.pending j t);
    earlier = λ t less. elim (v.earlier t less) [
      | inr done ↦ inr done
      | inl (j, h) ↦ inl (
        j,
        elim (ℕ_discrete i j) [
          | yes same ↦
              ap consuming (ap (update pc i q) (sym same) ∙ update_self pc i q)
              ∙ e
              ∙ ap (λ k. consuming (pc k)) same
              ∙ h
          | no other ↦ ap consuming (update_ne pc i q j other) ∙ h
        ],
      )
    ];
  }

  -- A consumer gets the next ticket.
  pub claim-Returned :
      (q : Pc A)
      → consuming (pc i) ≡ none
      → consuming q ≡ some c
      → Returned (suc c) (update pc i q) xs rs
  claim-Returned q before e = record {
    elements = v.elements;
    later = λ t more. v.later t (omega arith);
    pending = λ j t.
        update_all pc i q (λ p. consuming p ≡ some t → times t rs ≡ 0) j
          (λ h. v.later t (omega (arith, some_injective c t (sym e ∙ h)))) (λ other. v.pending j t);
    earlier = λ t less. elim (ℕ_discrete c t) [
      | yes now ↦ inl (i, ap consuming (update_self pc i q) ∙ e ∙ ap some now)
      | no old ↦ elim (v.earlier t (omega arith)) [
        | inr done ↦ inr done
        | inl (j, h) ↦ inl (j, ap consuming (update_ne pc i q j (apart j t h)) ∙ h)
      ]
    ];
  }
    where
      apart : (j t : ℕ) → consuming (pc j) ≡ some t → i ≢ j
      apart j t h same = none_ne_some t (sym before ∙ ap (λ k. consuming (pc k)) same ∙ h)

  -- The consumer with the ticket `u` returns.
  pub return-Returned :
      (q : Pc A) (u : ℕ) (x : A)
      → consuming (pc i) ≡ some u
      → consuming q ≡ none
      → u < c
      → get_elem? xs u ≡ some x
      → ((j : ℕ) → consuming (pc j) ≡ some u → i ≡ j)
      → Returned c (update pc i q) xs ((u, x) ∷ rs)
  return-Returned q u x before after less claimed only = record {
    elements = (claimed, v.elements);
    later = λ t more. times-other t u x rs (λ e. absurd (omega arith)) ∙ v.later t more;
    pending = λ j t.
        update_all pc i q (λ p. consuming p ≡ some t → times t ((u, x) ∷ rs) ≡ 0) j
          (λ h. absurd (none_ne_some t (sym after ∙ h)))
          (λ other h. times-other t u x rs (λ e. other (only j (h ∙ ap some e))) ∙ v.pending j t h);
    earlier = λ t small. elim (ℕ_discrete t u) [
      | yes now ↦
          inr (
            ap (λ k. times k ((u, x) ∷ rs)) now ∙ times-same u x rs ∙ ap suc (v.pending i u before))
      | no other ↦ elim (v.earlier t small) [
        | inr done ↦ inr (times-other t u x rs other ∙ done)
        | inl (j, h) ↦ inl (
          j,
          ap consuming (
                update_ne pc i q j (λ same.
                  other
                    (some_injective t u (sym h ∙ ap (λ k. consuming (pc k)) (sym same) ∙ before))))
              ∙ h,
        )
      ]
    ];
  }
