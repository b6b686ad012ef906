-- ===== src/Diagnostic/Evaluate/Causality.antt =====
-- controlplane/internal/diagnostic/evaluate.go: ApplyCausality against a description without
-- accumulators.
use vcpe.Common.{
  nat_eq, suc, ap, nat_beq_iff, length, inr, inl, Bool-cases, ◌∙◌, refl, eq_iff, true, arith,
  string_eq, ◌||◌, [], false, if◌then◌else◌, map, ◌&&◌, ◌==◌, ◌≡◌, All, Bool, String, ◌∷◌, List, ℕ,
}
use vcpe.Common.Result.{◌>>=◌, ok}
use vcpe.Diagnostic.Evaluate.{
  apply_causality, next_blocked, next_failure, reason_prerequisite_unknown,
  reason_prerequisite_failed, skipped, timed, causality_loop,
}
use vcpe.Diagnostic.Model.{
  state_unknown, valid_state, state_failed, state_skipped, Edge, Observation,
}

-- An evaluated observation that blocks what follows it, and the reason that it gives.
abbrev pub blocks : Edge → Observation → Bool
blocks e o = e.blocks_following && (o.state == state_failed || o.state == state_unknown)

abbrev pub reason_of : Observation → String
reason_of o =
    if o.state == state_failed then reason_prerequisite_failed else reason_prerequisite_unknown

abbrev pub all_skipped : ℕ → String → List Observation → List Observation
all_skipped at reason os = map (λ o. skipped reason (timed at o)) os

-- Observations up to the first that blocks stay, with a time, and all behind it are skipped.
unfoldable pub normalized : ℕ → List Edge → List Observation → List Observation
normalized at [] os = []
normalized at (e ∷ es) [] = []
normalized at (e ∷ es) (o ∷ os) =
    let rest = normalized at es os in
    timed at o ∷ (if blocks e o then all_skipped at (reason_of o) os else rest)

-- The edge of the first evaluated observation that failed, or the empty text.
unfoldable pub causal_failure : List Edge → List Observation → String
causal_failure [] os = ""
causal_failure (e ∷ es) [] = ""
causal_failure (e ∷ es) (o ∷ os) =
    let rest = causal_failure es os in
    if o.state == state_failed then o.edge_id else if blocks e o then "" else rest

-- One observation with a known state for each edge, in the order of the edges.
abbrev pub Matches : List Edge → List Observation → Type 0
Matches [] [] = Unit
Matches [] (o ∷ os) = ⊥
Matches (e ∷ es) [] = ⊥
Matches (e ∷ es) (o ∷ os) = (o.edge_id ≡ e.id) × (valid_state o.state ≡ true) × Matches es os

-- No evaluated observation claims to be skipped.
abbrev pub NoSkips : List Edge → List Observation → Type 0
NoSkips [] os = Unit
NoSkips (e ∷ es) [] = Unit
NoSkips (e ∷ es) (o ∷ os) =
    ((o.state == state_skipped) ≡ false) × (blocks e o ≡ false → NoSkips es os)

abbrev pub HaveIds : List Edge → Type 0
HaveIds = All (λ e. (e.id == "") ≡ false)

causality_loop_blocked :
    (es : List Edge) (os : List Observation) (at : ℕ) (first reason : String)
    → (reason == "") ≡ false
    → Matches es os
    → causality_loop es os at first reason ≡ ok (all_skipped at reason os, first)
unfolding causality_loop
causality_loop_blocked [] [] at first reason r m = refl
causality_loop_blocked [] (o ∷ os) at first reason r m = elim m [ ]
causality_loop_blocked (e ∷ es) [] at first reason r m = elim m [ ]
causality_loop_blocked (e ∷ es) (o ∷ os) at first reason r m =
    ground
      (arith, causality_loop_blocked es os at first reason r m.2, eq_iff o.edge_id e.id, m.0, m.1)

reason_of-ne : (o : Observation) → (reason_of o == "") ≡ false
reason_of-ne o = elim (Bool-cases (o.state == state_failed)) [
  | inl failed ↦ rw failed refl
  | inr other ↦ rw other refl
]

next_blocked-true :
    (e : Edge) (o : Observation) → blocks e o ≡ true → next_blocked e o ≡ reason_of o
next_blocked-true e o b = ground arith

next_blocked-false : (e : Edge) (o : Observation) → blocks e o ≡ false → next_blocked e o ≡ ""
next_blocked-false e o b = ground arith

-- One round of the loop at an observation that is evaluated.
causality_loop_step :
    (e : Edge) (es : List Edge) (o : Observation) (os : List Observation) (at : ℕ) (first : String)
    → o.edge_id ≡ e.id
    → valid_state o.state ≡ true
    → (o.state == state_skipped) ≡ false
    → causality_loop (e ∷ es) (o ∷ os) at first "" ≡ (
        causality_loop es os at (next_failure first o) (next_blocked e o) >>= λ r.
        ok (timed at o ∷ r.0, r.1))
unfolding causality_loop
causality_loop_step e es o os at first same valid live =
    rw ((eq_iff o.edge_id e.id).1 same, valid, live)

causality_loop_free :
    (es : List Edge) (os : List Observation) (at : ℕ) (first : String)
    → HaveIds es
    → Matches es os
    → NoSkips es os
    → causality_loop es os at first ""
      ≡ ok (normalized at es os, if first == "" then causal_failure es os else first)
unfolding normalized causal_failure
causality_loop_free [] [] at first i m n = unfold causality_loop in ground (arith, eq_iff first "")
causality_loop_free [] (o ∷ os) at first i m n = elim m [ ]
causality_loop_free (e ∷ es) [] at first i m n = elim m [ ]
causality_loop_free (e ∷ es) (o ∷ os) at first i m n =
    causality_loop_step e es o os at first m.0 m.1 n.0 ∙ elim (Bool-cases (blocks e o)) [
      | inl stop ↦
          rw
            (
              next_blocked-true e o stop,
              causality_loop_blocked es os at (next_failure first o) (reason_of o) (reason_of-ne o)
                  m.2,
              stop,
            )
            (ground (arith, eq_iff first "", i.0, m.0))
      | inr free ↦
          rw
            (
              next_blocked-false e o free,
              causality_loop_free es os at (next_failure first o) i.1 m.2 (n.1 free),
              free,
            )
            (ground (arith, eq_iff first "", i.0, m.0))
    ]

same_length : (es : List Edge) (os : List Observation) → Matches es os → length es ≡ length os
same_length [] [] m = refl
same_length [] (o ∷ os) m = elim m [ ]
same_length (e ∷ es) [] m = elim m [ ]
same_length (e ∷ es) (o ∷ os) m = ap suc (same_length es os m.2)

-- Observations that match edges with ids, none of them skipped before one blocks: evaluation keeps
-- them, with a time, up to the first that blocks, skips all behind it for that reason, and
-- names the first evaluated edge that failed.
pub apply_causality_lem :
    (now : ℕ) (es : List Edge) (os : List Observation) (observed_at : ℕ)
    → HaveIds es
    → Matches es os
    → NoSkips es os
    → apply_causality now es os observed_at
      ≡ ok (normalized (if observed_at == 0 then now else observed_at) es os, causal_failure es os)
unfolding apply_causality
apply_causality_lem now es os observed_at i m n =
    rw ((nat_beq_iff (length es) (length os)).1 (same_length es os m))
      (causality_loop_free es os (if observed_at == 0 then now else observed_at) "" i m n)
