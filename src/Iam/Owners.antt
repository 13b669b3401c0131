-- ===== src/Iam/Owners.antt =====
-- The last-owner guard of pkg/iam.
pub mod Converse
use cloud_ring.Prelude.{
  String, true, false, not, ◌&&◌, ◌≡◌, ◌≢◌, refl, subst, ◌∙◌, ◌⊎◌, inl, inr, some, List, [], ◌∷◌,
  ◌==◌, arith, eq_iff, Bool-cases, Option-cases, if◌then◌else◌, leb,
}
use cloud_ring.Prelude.Lists.{Map, Some, length, contains}
use cloud_ring.Iam.Types.{Principal, Project}
use cloud_ring.Iam.Rules.{principal_owns}
use cloud_ring.Iam.Policy.{Policy, owners_in, removing_last_owner}

-- The entry belongs to `who`, under the right reference, and owns the project.
abbrev pub Owns : Project → String → String × Principal → Type 0
Owns project who (reference, principal) =
    (reference ≡ who) × (principal.id ≡ who) × (principal_owns principal project ≡ true)

abbrev pub Distinct : List String → Type 0
Distinct [] = Unit
Distinct (x ∷ xs) = (contains xs x ≡ false) × Distinct xs

abbrev Within : List String → List String → Type 0
Within xs ys = (x : String) → contains xs x ≡ true → contains ys x ≡ true

-- The owners after an entry.
abbrev pub owners_after : Project → List String → Principal → List String
owners_after project owners principal =
    if principal_owns principal project && not (contains owners principal.id)
    then principal.id ∷ owners
    else owners

owners_in-step :
    (project : Project) (ids owners : List String) (reference : String) (principal : Principal)
    (m : Map Principal) {out : List String}
    → owners_in project ids owners ((reference, principal) ∷ m) ≡ some out
    → (reference ≡ principal.id)
      × (contains ids principal.id ≡ false)
      × (owners_in project (principal.id ∷ ids) (owners_after project owners principal) m
          ≡ some out)
unfolding owners_in
owners_in-step project ids owners reference principal m h =
    ground (arith, eq_iff reference principal.id)

owners_after-from :
    (project : Project) (owners : List String) (principal : Principal) (who : String)
    → contains (owners_after project owners principal) who ≡ true
    → (contains owners who ≡ true)
      ⊎ ((principal.id ≡ who) × (principal_owns principal project ≡ true))
unfolding contains
owners_after-from project owners principal who h = ground (arith, eq_iff principal.id who)

-- Who is among the owners at the end was there, or owns by an entry of the directory.
owners_in-from :
    (project : Project) (ids owners : List String) (m : Map Principal) {out : List String}
    (who : String)
    → owners_in project ids owners m ≡ some out
    → contains out who ≡ true
    → (contains owners who ≡ true) ⊎ Some (Owns project who) m
owners_in-from project ids owners [] who h c = unfold owners_in in inl (ground arith)
owners_in-from project ids owners ((reference, principal) ∷ m) who h c =
    let (same, _, rest) = owners_in-step project ids owners reference principal m h in
    elim (owners_in-from project (principal.id ∷ ids) (owners_after project owners principal) m who
      rest c) [
        | inr later ↦ inr (inr later)
        | inl new ↦ elim (owners_after-from project owners principal who new) [
          | inl old ↦ inl old
          | inr (e, o) ↦ inr (inl (same ∙ e, e, o))
        ]
      ]

owners_after-Within :
    (project : Project) (ids owners : List String) (principal : Principal)
    → Within owners ids
    → Within (owners_after project owners principal) (principal.id ∷ ids)
unfolding contains
owners_after-Within project ids owners principal w x h = ground (arith, w x)

owners_after-Distinct :
    (project : Project) (owners : List String) (principal : Principal)
    → Distinct owners
    → Distinct (owners_after project owners principal)
owners_after-Distinct project owners principal d = ground arith

owners_in-Distinct :
    (project : Project) (ids owners : List String) (m : Map Principal) {out : List String}
    → Distinct owners
    → owners_in project ids owners m ≡ some out
    → Distinct out
owners_in-Distinct project ids owners [] d h = unfold owners_in in subst Distinct (ground arith) d
owners_in-Distinct project ids owners ((reference, principal) ∷ m) d h =
    owners_in-Distinct project (principal.id ∷ ids) (owners_after project owners principal) m
      (owners_after-Distinct project owners principal d)
      (owners_in-step project ids owners reference principal m h).2

-- Of two distinct texts one is not `who`.
another :
    (xs : List String) (who : String)
    → Distinct xs
    → leb (length xs) 1 ≡ false
    → (x : String) × (x ≢ who) × (contains xs x ≡ true)
unfolding contains
another [] who d h = cc
another (x ∷ []) who d h = cc
another (x ∷ y ∷ xs) who d h = elim (Bool-cases (x == who)) [
  | inl e ↦ (y, ground (arith, eq_iff x who, eq_iff y x, eq_iff y who), ground (arith, eq_iff y y))
  | inr e ↦ (x, ground (arith, eq_iff x who), ground (arith, eq_iff x x))
]

Owns-of :
    (project : Project) (m : Map Principal) {out : List String} (who : String)
    → owners_in project [] [] m ≡ some out
    → contains out who ≡ true
    → Some (Owns project who) m
unfolding contains
Owns-of project m who h c = elim (owners_in-from project [] [] m who h c) [
  | inl e ↦ absurd (cc e)
  | inr o ↦ o
]

removing-parts :
    (p : Policy) (who : String) (project : Project)
    → removing_last_owner p who project ≡ false
    → (out : List String) × (owners_in project [] [] p.principals ≡ some out)
      × (contains out who ≡ true)
      × (leb (length out) 1 ≡ false)
unfolding removing_last_owner
removing-parts p who project h = elim (Option-cases (owners_in project [] [] p.principals)) [
  | inl e ↦ absurd (ground arith)
  | inr (out, e) ↦ (out, e, ground arith, ground arith)
]

-- If the guard lets the removal of `who` pass then the directory has an entry of `who` that owns
-- the project, and an entry of someone else that owns it.
pub removing_last_owner-leaves :
    (p : Policy) (who : String) (project : Project)
    → removing_last_owner p who project ≡ false
    → Some (Owns project who) p.principals
      × ((other : String) × (other ≢ who) × Some (Owns project other) p.principals)
removing_last_owner-leaves p who project h =
    let (out, e, c, l) = removing-parts p who project h in
    let (other, ne, co) = another out who (owners_in-Distinct project [] [] p.principals tt e) l in
    (Owns-of project p.principals who e c, (other, ne, Owns-of project p.principals other e co))
