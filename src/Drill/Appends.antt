-- ===== src/Drill/Appends.antt =====
-- pkg/backup/drill/journal.go: what an append does to the file.
use cloud_ring.Prelude.{
  some, ◌≡◌, refl, sym, ap, ◌∙◌, subst, ◌⊎◌, inl, inr, ℕ, suc, ◌+◌, ◌≤◌, true, none, List, [], ◌∷◌,
  ◌++◌, Bool-cases, arith, ltb, ◌*◌, ◌||◌,
}
use cloud_ring.Prelude.Lists.{last?, length, length-append}
use cloud_ring.Drill.Steps.{Step}
use cloud_ring.Drill.Types.{JournalEntry}
use cloud_ring.Drill.Digest.{Digest}
use cloud_ring.Drill.Plans.{Error}
use cloud_ring.Drill.Journal.{steps_of, extends, chain_valid, validate_journal_entries}
use cloud_ring.Drill.Phases.{
  append_assoc, append_nil, IsPhases, applied, rolled, RollbackTail, stopped, stop_failed,
  requested, undone, undo_failed, validate_journal_entries-IsPhases,
}
use cloud_ring.Drill.Store.{
  Result, ok, failed, File, absent, damaged, readable, Disk, fine, refused, unsure, torn, Env,
  World, is_fine, decode_journal, load_file, load, write, append_loaded, append, max_journal_bytes,
}

tail_length : (tail : List Step) → RollbackTail tail → length tail ≤ 3
tail_length _ stopped = omega arith
tail_length _ stop_failed = omega arith
tail_length _ requested = omega arith
tail_length _ undone = omega arith
tail_length _ undo_failed = omega arith

phases_length : (steps : List Step) → IsPhases steps → length steps ≤ 15
phases_length _ (applied steps rest whole) =
    omega (arith, length-append steps rest, ap length whole)
phases_length _ (rolled s steps tail next rest whole ends) = omega (
  arith,
  length-append (s ∷ steps) tail,
  length-append (s ∷ steps) (next ∷ rest),
  ap length whole,
  tail_length tail ends,
)

pub length-steps_of : (entries : List JournalEntry) → length (steps_of entries) ≡ length entries
length-steps_of [] = refl
length-steps_of (e ∷ entries) = ap suc (length-steps_of entries)

pub last-step_of :
    (entries : List JournalEntry) (last : JournalEntry)
    → last? entries ≡ some last
    → last? (steps_of entries) ≡ some last.step
last-step_of [] last h = ground arith
last-step_of (e ∷ []) last h = ground arith
last-step_of (e ∷ f ∷ entries) last h = last-step_of (f ∷ entries) last h

module _ (digest : Digest) where
  chain_snoc :
      (validated entries : List JournalEntry) (e : JournalEntry)
      → chain_valid digest validated entries ≡ true
      → extends digest (validated ++ entries) e ≡ true
      → chain_valid digest validated (entries ++ e ∷ []) ≡ true
  unfolding chain_valid
  chain_snoc validated [] e v more =
      let same : extends digest validated e ≡ true =
        subst (λ l. extends digest l e ≡ true) (append_nil validated) more in
      ground arith
  chain_snoc validated (x ∷ entries) e v more =
      let rest = chain_snoc (validated ++ x ∷ []) entries e (ground arith) (
        subst (λ l. extends digest l e ≡ true) (sym (append_assoc validated (x ∷ []) entries))
          more) in
      ground arith

  -- A valid journal that takes one more valid entry is valid: the limit of 32 entries is never met,
  -- for the phases have at most fifteen steps.
  pub validate_journal_entries-snoc :
      (entries : List JournalEntry) (e : JournalEntry)
      → validate_journal_entries digest entries ≡ none
      → extends digest entries e ≡ true
      → validate_journal_entries digest (entries ++ e ∷ []) ≡ none
  unfolding validate_journal_entries
  validate_journal_entries-snoc entries e valid more =
      let bound =
        phases_length (steps_of entries) (validate_journal_entries-IsPhases digest entries valid) in
      let chain = chain_snoc [] entries e (ground arith) more in
      ground (arith, chain, bound, length-steps_of entries, length-append entries (e ∷ []))

-- A load leaves the file and the requests, and what it returns is the file's content, valid.
pub load_lem :
    (env : Env) (w : World)
    → ((load env w).0.file ≡ w.file) × ((load env w).0.requests ≡ w.requests)
unfolding load
load_lem env w = (ground arith, ground arith)

pub load-readable :
    (env : Env) (w : World) (entries : List JournalEntry) (n : ℕ)
    → (load env w).1 ≡ ok (entries, n)
    → (w.file ≡ readable entries n) × (validate_journal_entries env.digest entries ≡ none)
unfolding load load_file decode_journal
load-readable env w entries n h = elim (Bool-cases (is_fine (env.disk w.disk_uses))) [
  | inl y ↦ file w.file refl (ground arith)
  | inr y ↦ ground arith
]
  where
    file :
        (f : File)
        → w.file ≡ f
        → load_file env.digest f ≡ ok (entries, n)
        → (w.file ≡ readable entries n) × (validate_journal_entries env.digest entries ≡ none)
    file absent same r = ground arith
    file damaged same r = ground arith
    file (readable es m) same r = (ground arith, ground arith)

pub Result-cases :
    {A : Type 0} → (r : Result A) → ((e : Error) × (r ≡ failed e)) ⊎ ((x : A) × (r ≡ ok x))
Result-cases (ok x) = inr (x, refl)
Result-cases (failed e) = inl (e, refl)

-- An append that returns an error may have left the file alone or damaged it.
abbrev pub IsSpoiled : File → World × Result Unit → Type 0
IsSpoiled before (w, r) = ((e : Error) × (r ≡ failed e)) × ((w.file ≡ before) ⊎ (w.file ≡ damaged))

-- The file was a valid journal, which the entry continues, and holds it at its end.
abbrev pub IsAppended : Env → JournalEntry → File → World × Result Unit → Type 0
IsAppended env entry before (w, r) =
    (entries : List JournalEntry) × (n : ℕ) × (before ≡ readable entries n)
    × (validate_journal_entries env.digest entries ≡ none)
    × (extends env.digest entries entry ≡ true)
    × (w.file ≡ readable (entries ++ entry ∷ []) (n + env.encoded_size entry))

pub write_lem :
    (d : Disk) (after : File) (w : World)
    → ((write d after w).0.requests ≡ w.requests)
      × (((write d after w).0.file ≡ after)
          ⊎ (((e : Error) × ((write d after w).1 ≡ failed e))
              × (((write d after w).0.file ≡ w.file) ⊎ ((write d after w).0.file ≡ damaged))))
unfolding write
write_lem fine after w = (refl, inl refl)
write_lem refused after w = (refl, inr ((_, refl), inl refl))
write_lem unsure after w = (refl, inl refl)
write_lem torn after w = (refl, inr ((_, refl), inr refl))

append_loaded_lem :
    (env : Env) (entry : JournalEntry) (entries : List JournalEntry) (n : ℕ) (w : World)
    → w.file ≡ readable entries n
    → validate_journal_entries env.digest entries ≡ none
    → ((append_loaded env entry (entries, n) w).0.requests ≡ w.requests)
      × (IsSpoiled w.file (append_loaded env entry (entries, n) w)
          ⊎ IsAppended env entry w.file (append_loaded env entry (entries, n) w))
unfolding append_loaded
append_loaded_lem env entry entries n w here valid =
    let size = n + env.encoded_size entry in
    let (same, wrote) =
      write_lem (env.disk w.disk_uses) (readable (entries ++ entry ∷ []) size) w in
    elim (Bool-cases (extends env.digest entries entry)) [
      | inr bad ↦ (
        ground arith,
        inl (
          ("backup drill journal append is not a valid transition", ground arith),
          inl (ground arith),
        ),
      )
      | inl good ↦
          elim (Bool-cases (
            ltb (128 * 1024) (env.encoded_size entry)
            || ltb max_journal_bytes (n + env.encoded_size entry))) [
              | inl large ↦ (
                ground arith,
                inl (
                  ("backup drill journal entry exceeds limit", ground arith),
                  inl (ground arith),
                ),
              )
              | inr small ↦
                  let done : append_loaded env entry (entries, n) w
                      ≡ write (env.disk w.disk_uses) (readable (entries ++ entry ∷ []) size) w =
                    ground arith in
                  (
                    ap (λ p. p.0.requests) done ∙ same,
                    elim wrote [
                      | inl after ↦
                          inr (entries, n, here, valid, good, ap (λ p. p.0.file) done ∙ after)
                      | inr ((e, err), inl before) ↦
                          inl
                            ((e, ap (λ p. p.1) done ∙ err), inl (ap (λ p. p.0.file) done ∙ before))
                      | inr ((e, err), inr harm) ↦
                          inl ((e, ap (λ p. p.1) done ∙ err), inr (ap (λ p. p.0.file) done ∙ harm))
                    ],
                  )
            ]
    ]

-- An append runs no adapter. It returns an error and leaves the file as it was, or damaged, or the
-- file was a valid journal that the entry continues, and is now that journal with the entry at its
-- end, which is the case whenever no error is returned.
pub append-outcome :
    (env : Env) (entry : JournalEntry) (w : World)
    → ((append env entry w).0.requests ≡ w.requests)
      × (IsSpoiled w.file (append env entry w) ⊎ IsAppended env entry w.file (append env entry w))
unfolding append
append-outcome env entry w =
    let (file, requests) = load_lem env w in
    elim (Result-cases (load env w).1) [
      | inl (e, err) ↦ (
        ground arith,
        inl (("load backup drill journal before append", ground arith), inl (ground arith)),
      )
      | inr ((entries, n), read) ↦
          let (here, valid) = load-readable env w entries n read in
          let (same, outcome) =
            append_loaded_lem env entry entries n (load env w).0 (file ∙ here) valid in
          let done : append env entry w ≡ append_loaded env entry (entries, n) (load env w).0 =
            ground arith in
          (
            ap (λ p. p.0.requests) done ∙ same ∙ requests,
            subst (λ p. IsSpoiled w.file p ⊎ IsAppended env entry w.file p) (sym done)
                (subst
                  (λ f.
                    IsSpoiled f (append_loaded env entry (entries, n) (load env w).0)
                    ⊎ IsAppended env entry f (append_loaded env entry (entries, n) (load env w).0))
                  file outcome),
          )
    ]

-- The file is no readable journal, or one that validateJournalEntries accepts.
unfoldable pub HoldsJournal : Digest → File → Type 0
HoldsJournal digest absent = Unit
HoldsJournal digest damaged = Unit
HoldsJournal digest (readable entries n) = validate_journal_entries digest entries ≡ none

-- If the file holds a valid journal, or none that decodes, then so it does after an append, whatever
-- the entry is and whatever the disk does.
pub append-HoldsJournal :
    (env : Env) (entry : JournalEntry) (w : World)
    → HoldsJournal env.digest w.file
    → HoldsJournal env.digest (append env entry w).0.file
unfolding HoldsJournal
append-HoldsJournal env entry w holds = elim (append-outcome env entry w).1 [
  | inl (_, inl same) ↦ subst (HoldsJournal env.digest) (sym same) holds
  | inl (_, inr harm) ↦ subst (HoldsJournal env.digest) (sym harm) tt
  | inr (entries, n, here, valid, good, after) ↦
      subst (HoldsJournal env.digest) (sym after)
        (validate_journal_entries-snoc env.digest entries entry valid good)
]
