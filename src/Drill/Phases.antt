-- ===== src/Drill/Phases.antt =====
-- pkg/backup/drill/journal.go: the sequences of steps that a valid journal can have.
use cloud_ring.Prelude.{
  ◌≡◌, refl, sym, ap, ◌∙◌, subst, ◌⊎◌, inl, inr, true, false, none, some, List, [], ◌∷◌, ◌++◌,
  Bool-cases, Option-cases, arith, eq_iff,
}
use cloud_ring.Prelude.Lists.{length, get_elem?, last?, All}
use cloud_ring.Drill.Steps.{
  Step, step_eq, apply_steps, completed, rolled_back, rollback_failed, rollback_safe_stop,
  rollback_cleanup_requested, approval_consumed, other,
}
use cloud_ring.Drill.Types.{JournalEntry}
use cloud_ring.Drill.Digest.{Digest}
use cloud_ring.Drill.Journal.{
  valid_transition, steps_of, extends, chain_valid, validate_journal_entries,
}

pub step_eq_sound : (a b : Step) → step_eq a b ≡ true → a ≡ b
unfolding step_eq
step_eq_sound (other s) (other t) h = ground (arith, eq_iff s t)
step_eq_sound a b h = ground arith

module _ {A : Type 0} where
  pub last?-append : (xs : List A) (y : A) (ys : List A) → last? (xs ++ y ∷ ys) ≡ last? (y ∷ ys)
  last?-append [] y ys = refl
  last?-append (x ∷ []) y ys = refl
  last?-append (x ∷ z ∷ xs) y ys = last?-append (z ∷ xs) y ys

  pub get_elem?-length :
      (xs : List A) (y : A) (ys : List A) → get_elem? (xs ++ y ∷ ys) (length xs) ≡ some y
  get_elem?-length [] y ys = refl
  get_elem?-length (x ∷ xs) y ys = get_elem?-length xs y ys

  pub last?-All :
      (P : A → Type 0) (xs ys : List A) (x : A) → All P (xs ++ ys) → last? xs ≡ some x → P x
  last?-All P (a ∷ []) ys x (p, _) h = ground arith
  last?-All P (a ∷ b ∷ xs) ys x (_, ps) h = last?-All P (b ∷ xs) ys x ps h
  last?-All P [] ys x ps h = ground arith

  pub append_assoc : (xs ys zs : List A) → (xs ++ ys) ++ zs ≡ xs ++ (ys ++ zs)
  append_assoc [] ys zs = refl
  append_assoc (x ∷ xs) ys zs = ap (λ l. x ∷ l) (append_assoc xs ys zs)

-- What follows the applied steps once a rollback began.
pub data RollbackTail : List Step → Type 0 where
  stopped : RollbackTail (rollback_safe_stop ∷ [])
  stop_failed : RollbackTail (rollback_safe_stop ∷ rollback_failed ∷ [])
  requested : RollbackTail (rollback_safe_stop ∷ rollback_cleanup_requested ∷ [])
  undone : RollbackTail (rollback_safe_stop ∷ rollback_cleanup_requested ∷ rolled_back ∷ [])
  undo_failed :
      RollbackTail (rollback_safe_stop ∷ rollback_cleanup_requested ∷ rollback_failed ∷ [])

-- A prefix of ApplySteps, or a prefix that is neither empty nor whole, and a rollback after it.
pub data IsPhases : List Step → Type 0 where
  applied : (steps rest : List Step) → steps ++ rest ≡ apply_steps → IsPhases steps
  rolled :
      (s : Step) (steps tail : List Step) (next : Step) (rest : List Step)
      → (s ∷ steps) ++ next ∷ rest ≡ apply_steps
      → RollbackTail tail
      → IsPhases ((s ∷ steps) ++ tail)

-- A step after which a rollback has not begun.
abbrev Forward : Step → Type 0
Forward s = (step_eq s rollback_safe_stop ≡ false) × (step_eq s rollback_cleanup_requested ≡ false)

transition-Forward :
    (steps : List Step) (next l : Step)
    → last? steps ≡ some l
    → Forward l
    → valid_transition steps next ≡ true
    → (next ≡ rollback_safe_stop) ⊎ (get_elem? apply_steps (length steps) ≡ some next)
unfolding valid_transition
transition-Forward steps next l h (f, g) v = elim (Bool-cases (step_eq next rollback_safe_stop)) [
  | inl same ↦ inl (step_eq_sound next rollback_safe_stop same)
  | inr differs ↦ elim (Option-cases (get_elem? apply_steps (length steps))) [
    | inl none' ↦ ground arith
    | inr (x, got) ↦ inr (ground (arith, step_eq_sound next x))
  ]
]

transition_stopped :
    (steps : List Step) (next : Step)
    → last? steps ≡ some rollback_safe_stop
    → valid_transition steps next ≡ true
    → (next ≡ rollback_cleanup_requested) ⊎ (next ≡ rollback_failed)
unfolding valid_transition step_eq
transition_stopped steps next h v =
    ground
      (arith, step_eq_sound next rollback_cleanup_requested, step_eq_sound next rollback_failed)

transition_requested :
    (steps : List Step) (next : Step)
    → last? steps ≡ some rollback_cleanup_requested
    → valid_transition steps next ≡ true
    → (next ≡ rolled_back) ⊎ (next ≡ rollback_failed)
unfolding valid_transition step_eq
transition_requested steps next h v =
    ground (arith, step_eq_sound next rolled_back, step_eq_sound next rollback_failed)

-- A journal that ends in one of the last steps takes no other.
transition_ended :
    (steps : List Step) (next l : Step)
    → last? steps ≡ some l
    → (l ≡ rolled_back) ⊎ (l ≡ rollback_failed) ⊎ (l ≡ completed)
    → valid_transition steps next ≡ false
unfolding valid_transition step_eq
transition_ended steps next l h ended = ground arith

apply_steps-Forward : All Forward apply_steps
unfolding step_eq
apply_steps-Forward = (
  (refl, refl),
  (
    (refl, refl),
    (
      (refl, refl),
      (
        (refl, refl),
        (
          (refl, refl),
          (
            (refl, refl),
            (
              (refl, refl),
              (
                (refl, refl),
                ((refl, refl), ((refl, refl), ((refl, refl), ((refl, refl), ((refl, refl), tt))))),
              ),
            ),
          ),
        ),
      ),
    ),
  ),
)

pub append_nil : {A : Type 0} → (xs : List A) → xs ++ [] ≡ xs
append_nil [] = refl
append_nil (x ∷ xs) = ap (λ l. x ∷ l) (append_nil xs)

last_exists : (s : Step) (steps : List Step) → (l : Step) × (last? (s ∷ steps) ≡ some l)
last_exists s [] = (s, refl)
last_exists s (t ∷ steps) = last_exists t steps

applied-step :
    (s : Step) (steps rest : List Step) (next : Step)
    → (s ∷ steps) ++ rest ≡ apply_steps
    → valid_transition (s ∷ steps) next ≡ true
    → IsPhases ((s ∷ steps) ++ next ∷ [])
unfolding step_eq
applied-step s steps [] next whole v =
    let same : s ∷ steps ≡ apply_steps = sym (append_nil (s ∷ steps)) ∙ whole in
    let (l, last) = last_exists s steps in
    let ends : last? (s ∷ steps) ≡ some completed = ap last? same in
    let never = transition_ended (s ∷ steps) next completed ends (inr (inr refl)) in ground arith
applied-step s steps (r ∷ rest) next whole v =
    let (l, last) = last_exists s steps in
    let forward : Forward l =
      last?-All Forward (s ∷ steps) (r ∷ rest) l
        (subst (All Forward) (sym whole) apply_steps-Forward) last in
    let due : get_elem? apply_steps (length (s ∷ steps)) ≡ some r =
      subst (λ k. get_elem? k (length (s ∷ steps)) ≡ some r) whole
        (get_elem?-length (s ∷ steps) r rest) in
    elim (transition-Forward (s ∷ steps) next l last forward v) [
      | inl safe ↦
          subst (λ t. IsPhases ((s ∷ steps) ++ t ∷ [])) (sym safe)
            (rolled s steps (rollback_safe_stop ∷ []) r rest whole stopped)
      | inr got ↦
          let same : next ≡ r = ground arith in
          subst (λ t. IsPhases ((s ∷ steps) ++ t ∷ [])) (sym same)
            (applied ((s ∷ steps) ++ r ∷ []) rest (append_assoc (s ∷ steps) (r ∷ []) rest ∙ whole))
    ]

grow-tail :
    (s : Step) (steps tail : List Step) (next t r : Step) (rest : List Step)
    → (s ∷ steps) ++ r ∷ rest ≡ apply_steps
    → next ≡ t
    → RollbackTail (tail ++ t ∷ [])
    → IsPhases (((s ∷ steps) ++ tail) ++ next ∷ [])
grow-tail s steps tail next t r rest whole e more =
    subst (λ u. IsPhases (((s ∷ steps) ++ tail) ++ u ∷ [])) (sym e)
      (subst IsPhases (sym (append_assoc (s ∷ steps) tail (t ∷ [])))
        (rolled s steps (tail ++ t ∷ []) r rest whole more))

tail-step :
    (s : Step) (steps tail : List Step) (next r : Step) (rest : List Step)
    → (s ∷ steps) ++ r ∷ rest ≡ apply_steps
    → RollbackTail tail
    → valid_transition ((s ∷ steps) ++ tail) next ≡ true
    → IsPhases (((s ∷ steps) ++ tail) ++ next ∷ [])
tail-step s steps _ next r rest whole stopped v =
    let tail : List Step = rollback_safe_stop ∷ [] in
    elim (transition_stopped ((s ∷ steps) ++ tail) next
      (last?-append (s ∷ steps) rollback_safe_stop []) v) [
        | inl e ↦ grow-tail s steps tail next rollback_cleanup_requested r rest whole e requested
        | inr e ↦ grow-tail s steps tail next rollback_failed r rest whole e stop_failed
      ]
tail-step s steps _ next r rest whole requested v =
    let tail : List Step = rollback_safe_stop ∷ rollback_cleanup_requested ∷ [] in
    elim (transition_requested ((s ∷ steps) ++ tail) next
      (last?-append (s ∷ steps) rollback_safe_stop (rollback_cleanup_requested ∷ [])) v) [
        | inl e ↦ grow-tail s steps tail next rolled_back r rest whole e undone
        | inr e ↦ grow-tail s steps tail next rollback_failed r rest whole e undo_failed
      ]
tail-step s steps _ next r rest whole stop_failed v =
    let never =
      transition_ended ((s ∷ steps) ++ rollback_safe_stop ∷ rollback_failed ∷ []) next
        rollback_failed (last?-append (s ∷ steps) rollback_safe_stop (rollback_failed ∷ []))
        (inr (inl refl)) in
    ground arith
tail-step s steps _ next r rest whole undone v =
    let never =
      transition_ended
        ((s ∷ steps) ++ rollback_safe_stop ∷ rollback_cleanup_requested ∷ rolled_back ∷ []) next
        rolled_back
        (last?-append (s ∷ steps) rollback_safe_stop
          (rollback_cleanup_requested ∷ rolled_back ∷ []))
        (inl refl) in
    ground arith
tail-step s steps _ next r rest whole undo_failed v =
    let never =
      transition_ended
        ((s ∷ steps) ++ rollback_safe_stop ∷ rollback_cleanup_requested ∷ rollback_failed ∷ []) next
        rollback_failed
        (last?-append (s ∷ steps) rollback_safe_stop
          (rollback_cleanup_requested ∷ rollback_failed ∷ []))
        (inr (inl refl)) in
    ground arith

-- A valid transition leads from phases to phases.
pub transition-IsPhases :
    (steps : List Step) (next : Step)
    → IsPhases steps
    → valid_transition steps next ≡ true
    → IsPhases (steps ++ next ∷ [])
unfolding valid_transition
transition-IsPhases _ next (applied [] rest whole) v =
    subst (λ t. IsPhases (t ∷ [])) (sym (step_eq_sound next approval_consumed v))
      (applied (approval_consumed ∷ []) _ refl)
transition-IsPhases _ next (applied (s ∷ steps) rest whole) v =
    applied-step s steps rest next whole v
transition-IsPhases _ next (rolled s steps tail r rest whole ends) v =
    tail-step s steps tail next r rest whole ends v

pub steps_of-append : (a b : List JournalEntry) → steps_of (a ++ b) ≡ steps_of a ++ steps_of b
steps_of-append [] b = refl
steps_of-append (e ∷ a) b = ap (λ l. e.step ∷ l) (steps_of-append a b)

module _ (digest : Digest) where
  pub chain-IsPhases :
      (validated entries : List JournalEntry)
      → IsPhases (steps_of validated)
      → chain_valid digest validated entries ≡ true
      → IsPhases (steps_of (validated ++ entries))
  unfolding chain_valid extends
  chain-IsPhases validated [] phases v =
      subst (λ l. IsPhases (steps_of l)) (sym (append_nil validated)) phases
  chain-IsPhases validated (e ∷ entries) phases v =
      let step : valid_transition (steps_of validated) e.step ≡ true = ground arith in
      let more : IsPhases (steps_of (validated ++ e ∷ [])) =
        subst IsPhases (sym (steps_of-append validated (e ∷ [])))
          (transition-IsPhases (steps_of validated) e.step phases step) in
      subst (λ l. IsPhases (steps_of l)) (append_assoc validated (e ∷ []) entries)
        (chain-IsPhases (validated ++ e ∷ []) entries more (ground arith))

  -- The steps of a journal that passes the checks of validateJournalEntries are the first of
  -- ApplySteps in their order, or some of the first, at least one and not all, followed by a
  -- rollback: a safe stop, after which come nothing, a failure, or a requested cleanup, after which
  -- come nothing, rolled-back or a failure.
  pub validate_journal_entries-IsPhases :
      (entries : List JournalEntry)
      → validate_journal_entries digest entries ≡ none
      → IsPhases (steps_of entries)
  unfolding validate_journal_entries
  validate_journal_entries-IsPhases entries valid =
      chain-IsPhases [] entries (applied [] apply_steps refl) (ground arith)
