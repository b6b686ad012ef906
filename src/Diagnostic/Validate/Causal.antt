-- ===== src/Diagnostic/Validate/Causal.antt =====
-- controlplane/internal/diagnostic: what ApplyCausality returns satisfies what Result.Validate asks of the order
-- of states.
use vcpe.Common.Result.{err-ne-ok, ok-injective, >>=-ok, ok}
use vcpe.Common.{
  ◌∙◌, sym, Bool, eq_iff, nat_eq, ap, if◌then◌else◌, length, subst, true, refl, string_eq, inl, inr,
  Bool-cases, [], ◌==◌, arith, not, ◌≡◌, String, false, ℕ, ◌∷◌, List,
}
use vcpe.Diagnostic.Model.{
  state_skipped, state_unknown, valid_state, state_failed, Observation, Edge,
}
use vcpe.Diagnostic.Formats.{Formats}
use vcpe.Diagnostic.Evaluate.{
  causality_loop, apply_causality, skipped, timed, next_failure, next_blocked,
}
use vcpe.Diagnostic.Validate.{check_observation, check_observations, failure_after, block_after}

-- Each observation passes its own checks.
abbrev pub Checked : Formats → List Edge → List Observation → Type 0
Checked f [] os = Unit
Checked f (e ∷ es) [] = Unit
Checked f (e ∷ es) (o ∷ os) = (check_observation f e o ≡ ok tt) × Checked f es os

next_blocked-block_after :
    (e : Edge) (o : Observation) → block_after o e false ≡ not (next_blocked e o == "")
next_blocked-block_after e o = elim (Bool-cases (o.state == state_failed)) [
  | inl failed ↦ elim (Bool-cases e.blocks_following) [
    | inl yes_blocks ↦ rw (failed, yes_blocks) refl
    | inr no_blocks ↦ rw (failed, no_blocks) refl
  ]
  | inr other ↦ elim (Bool-cases (o.state == state_unknown)) [
    | inl unknown ↦ elim (Bool-cases e.blocks_following) [
      | inl yes_blocks ↦ rw (other, unknown, yes_blocks) refl
      | inr no_blocks ↦ rw (other, unknown, no_blocks) refl
    ]
    | inr settled ↦ rw (other, settled) (ground arith)
  ]
]

next_failure-failure_after :
    (e : Edge) (o : Observation) (first : String)
    → o.edge_id ≡ e.id
    → failure_after o e first ≡ next_failure first o
next_failure-failure_after e o first same = rw (← same) (ground arith)

block_after-true : (o : Observation) (e : Edge) → block_after o e true ≡ true
block_after-true o e = ground arith

-- The loop of Result.Validate passes a result of the loop of ApplyCausality.
abbrev Agrees : Formats → List Edge → String → String → List Observation × String → Type 0
Agrees f es first blocked result =
    Checked f es result.0
    → check_observations f es result.0 first (not (blocked == "")) ≡ ok result.1

held-Agrees :
    (f : Formats) (e : Edge) (es : List Edge) (o : Observation) (at : ℕ) (first blocked : String)
    (rest : List Observation × String)
    → (blocked == "") ≡ false
    → Agrees f es first blocked rest
    → Agrees f (e ∷ es) first blocked (skipped blocked (timed at o) ∷ rest.0, rest.1)
unfolding check_observations
held-Agrees f e es o at first blocked rest held behind each =
    let later : check_observations f es rest.0 first true ≡ ok rest.1 =
      ap (λ (b : Bool). check_observations f es rest.0 first (not b)) (sym held) ∙ behind each.1 in
    rw (check_observations, each.0, held, block_after-true (skipped blocked (timed at o)) e) later

ran-Agrees :
    (f : Formats) (e : Edge) (es : List Edge) (o : Observation) (at : ℕ) (first blocked : String)
    (rest : List Observation × String)
    → (blocked == "") ≡ true
    → o.edge_id ≡ e.id
    → Agrees f es (next_failure first o) (next_blocked e o) rest
    → Agrees f (e ∷ es) first blocked (timed at o ∷ rest.0, rest.1)
unfolding check_observations
ran-Agrees f e es o at first blocked rest clear same behind each =
    let block = next_blocked-block_after e (timed at o) in
    let failure = next_failure-failure_after e (timed at o) first same in
    rw (check_observations, each.0, clear, block, failure) (behind each.1)

causality_loop-Agrees :
    (f : Formats) (es : List Edge) (os : List Observation) (at : ℕ) (first blocked : String)
    {result : List Observation × String}
    → causality_loop es os at first blocked ≡ ok result
    → Agrees f es first blocked result
unfolding causality_loop check_observations
causality_loop-Agrees f [] [] at first blocked {result} h =
    subst (Agrees f [] first blocked) (ok-injective _ _ h) (λ each. refl)
causality_loop-Agrees f [] (o ∷ os) at first blocked h = absurd (err-ne-ok _ _ h)
causality_loop-Agrees f (e ∷ es) [] at first blocked h = absurd (err-ne-ok _ _ h)
causality_loop-Agrees f (e ∷ es) (o ∷ os) at first blocked {result} h =
    elim (Bool-cases (o.edge_id == e.id)) [
      | inr other ↦ absurd (err-ne-ok _ _ (simp (causality_loop, other) at h))
      | inl same ↦ elim (Bool-cases (valid_state o.state)) [
        | inr bad ↦ absurd (err-ne-ok _ _ (simp (causality_loop, same, bad) at h))
        | inl known ↦ elim (Bool-cases (blocked == "")) [
          | inr held ↦
              let (rest, made, ran) =
                >>=-ok (causality_loop es os at first blocked) _
                  (simp (causality_loop, same, known, held) at h) in
              subst (Agrees f (e ∷ es) first blocked) (ok-injective _ _ made) (
                held-Agrees f e es o at first blocked rest held
                  (causality_loop-Agrees f es os at first blocked ran))
          | inl clear ↦
              let alone = simp (causality_loop, same, known, clear) at h in
              elim (Bool-cases (o.state == state_skipped)) [
                | inl idle ↦ absurd (err-ne-ok _ _ (simp idle at alone))
                | inr active ↦
                    let (rest, made, ran) =
                      >>=-ok (causality_loop es os at (next_failure first o) (next_blocked e o)) _
                        (simp active at alone) in
                    subst (Agrees f (e ∷ es) first blocked) (ok-injective _ _ made) (
                      ran-Agrees f e es o at first blocked rest clear
                        ((eq_iff o.edge_id e.id).0 same)
                        (causality_loop-Agrees f es os at (next_failure first o) (next_blocked e o)
                          ran))
              ]
        ]
      ]
    ]

-- A result of ApplyCausality passes the part of Result.Validate that looks at the order of the
-- states, and the first failure that it names is the one that Validate finds, provided each
-- observation by itself passes the checks of Validate.
pub apply_causality-validates :
    (f : Formats) (now at : ℕ) (es : List Edge) (os : List Observation)
    {result : List Observation × String}
    → apply_causality now es os at ≡ ok result
    → Checked f es result.0
    → check_observations f es result.0 "" false ≡ ok result.1
unfolding apply_causality
apply_causality-validates f now at es os h each = elim (Bool-cases (length es == length os)) [
  | inr differ ↦ absurd (err-ne-ok _ _ (simp (apply_causality, differ) at h))
  | inl same ↦
      causality_loop-Agrees f es os (if at == 0 then now else at) "" ""
        (simp (apply_causality, same) at h) each
]
