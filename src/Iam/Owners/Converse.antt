-- ===== src/Iam/Owners/Converse.antt =====
-- The last-owner guard of pkg/iam lets a removal pass where it may.
use cloud_ring.Prelude.{
  String, true, false, ◌≡◌, ◌≢◌, refl, ◌∙◌, ◌⊎◌, inl, inr, some, List, [], ◌∷◌, arith, eq_iff, leb,
}
use cloud_ring.Prelude.Lists.{Map, Some, length, contains}
use cloud_ring.Iam.Types.{Principal, Project}
use cloud_ring.Iam.Rules.{principal_owns}
use cloud_ring.Iam.Policy.{Policy, owners_in, removing_last_owner}
use cloud_ring.Iam.Owners.{Owns, owners_after}

-- A directory in which each entry stands under its own identity, once, beside those in `ids`.
abbrev pub IsDirectory : List String → Map Principal → Type 0
IsDirectory ids [] = Unit
IsDirectory ids ((reference, principal) ∷ m) =
    (reference ≢ "")
    × (reference ≡ principal.id)
    × (contains ids principal.id ≡ false)
    × IsDirectory (principal.id ∷ ids) m

owners_in-advance :
    (project : Project) (ids owners : List String) (reference : String) (principal : Principal)
    (m : Map Principal)
    → reference ≢ ""
    → reference ≡ principal.id
    → contains ids principal.id ≡ false
    → owners_in project ids owners ((reference, principal) ∷ m)
      ≡ owners_in project (principal.id ∷ ids) (owners_after project owners principal) m
unfolding owners_in
owners_in-advance project ids owners reference principal m n e c =
    ground (arith, eq_iff reference "", eq_iff principal.id "", eq_iff reference principal.id)

owners_after-keeps :
    (project : Project) (owners : List String) (principal : Principal) (who : String)
    → (contains owners who ≡ true)
      ⊎ ((principal.id ≡ who) × (principal_owns principal project ≡ true))
    → contains (owners_after project owners principal) who ≡ true
unfolding contains
owners_after-keeps project owners principal who h = ground (arith, eq_iff principal.id who)

owners_in_complete :
    (project : Project) (ids owners : List String) (m : Map Principal)
    → IsDirectory ids m
    → (out : List String) × (owners_in project ids owners m ≡ some out)
      × ((who : String)
          → (contains owners who ≡ true) ⊎ Some (Owns project who) m
          → contains out who ≡ true)
owners_in_complete project ids owners [] d =
    (owners, unfold owners_in in refl, λ who h. elim h [ inl c ↦ c | inr o ↦ absurd o ])
owners_in_complete project ids owners ((reference, principal) ∷ m) (n, e, c, d) =
    let (out, o, all) =
      owners_in_complete project (principal.id ∷ ids) (owners_after project owners principal) m d in
    (
      out,
      owners_in-advance project ids owners reference principal m n e c ∙ o,
      λ who h. all who (elim h [
        | inl old ↦ inl (owners_after-keeps project owners principal who (inl old))
        | inr (inl w) ↦ inl (owners_after-keeps project owners principal who (inr (w.1, w.2)))
        | inr (inr later) ↦ inr later
      ]),
    )

two_of :
    (xs : List String) (a b : String)
    → b ≢ a
    → contains xs a ≡ true
    → contains xs b ≡ true
    → leb (length xs) 1 ≡ false
unfolding contains
two_of [] a b n ca cb = cc
two_of (x ∷ []) a b n ca cb = ground (arith, eq_iff x a, eq_iff x b)
two_of (x ∷ y ∷ xs) a b n ca cb = ground arith

-- In a well-formed directory the guard lets a removal pass if someone else owns the project too.
pub removing_last_owner-passes :
    (p : Policy) (who other : String) (project : Project)
    → IsDirectory [] p.principals
    → who ≢ ""
    → other ≢ who
    → Some (Owns project who) p.principals
    → Some (Owns project other) p.principals
    → removing_last_owner p who project ≡ false
unfolding removing_last_owner
removing_last_owner-passes p who other project d n ne ow oo =
    let (out, e, all) = owners_in_complete project [] [] p.principals d in
    let a = all who (inr ow) in
    let b = all other (inr oo) in
    let two = two_of out who other ne a b in ground (arith, e, a, two, eq_iff who "")
