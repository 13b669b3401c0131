-- ===== src/Modules/Search.antt =====
-- pkg/registry/registry.go: what a visit of the search does to its marks.
use cloud_ring.Prelude.{
  ℕ, zero, suc, String, true, false, ◌≡◌, refl, sym, ap, ◌∙◌, subst, arith, ◌==◌, eq_iff,
  Bool-cases, ◌⊎◌, inl, inr, List, [], ◌∷◌,
}
use cloud_ring.Prelude.Lists.{contains, Map}
use cloud_ring.Modules.Types.{Module, ValidationError}
use cloud_ring.Modules.Dependencies.{
  Marks, Visit, returned, refused, exhausted, delete, leave, visit_each, visit,
}
use cloud_ring.Modules.Graph.{depends, IsOrdered, delete-fresh}

pub Visit-cases :
    (v : Visit)
    → ((marks : Marks) × (v ≡ returned marks))
      ⊎ (((e : ValidationError) × (v ≡ refused e)) ⊎ (v ≡ exhausted))
Visit-cases (returned marks) = inl (marks, refl)
Visit-cases (refused e) = inr (inl (e, refl))
Visit-cases exhausted = inr (inr refl)

-- What was visited is an order, and none of it is being visited.
abbrev pub IsSearched : Map Module → Marks → Type 0
IsSearched known marks =
    IsOrdered known marks.visited
    × ((x : String) → contains marks.visiting x ≡ true → contains marks.visited x ≡ false)

-- What a visit that returns does to the marks.
abbrev pub Grows : Map Module → Marks → Marks → Type 0
Grows known marks marks' =
    (marks'.visiting ≡ marks.visiting)
    × IsSearched known marks'
    × ((x : String) → contains marks.visited x ≡ true → contains marks'.visited x ≡ true)

-- A function that grows the marks by what it visits.
abbrev Visits : Map Module → (String → Marks → Visit) → Type 0
Visits known f =
    (id : String) (marks marks' : Marks)
    → IsSearched known marks
    → f id marks ≡ returned marks'
    → Grows known marks marks' × (contains marks'.visited id ≡ true)

pub visit_each-Grows :
    (known : Map Module) (f : String → Marks → Visit)
    → Visits known f
    → (ids : List String) (marks marks' : Marks) → IsSearched known marks
    → visit_each f ids marks ≡ returned marks'
    → Grows known marks marks'
      × ((y : String) → contains ids y ≡ true → contains marks'.visited y ≡ true)
unfolding visit_each contains
visit_each-Grows known f hf [] marks marks' hs h =
    let same : marks ≡ marks' = ground arith in
    subst
      (λ m.
        Grows known marks m × ((y : String) → contains [] y ≡ true → contains m.visited y ≡ true))
      same ((refl, hs, (λ x hx. hx)), (λ y hy. ground arith))
visit_each-Grows known f hf (id ∷ ids) marks marks' hs h = elim (Visit-cases (f id marks)) [
  | inl (m, e) ↦
      let (g, hid) = hf id marks m hs e in
      let (g', hids) = visit_each-Grows known f hf ids m marks' g.1 (ground arith) in
      (
        (ground arith, g'.1, (λ x hx. g'.2 x (g.2 x hx))),
        (λ y hy. elim (Bool-cases (id == y)) [
          | inl t ↦ g'.2 y (subst (λ z. contains m.visited z ≡ true) ((eq_iff id y).0 t) hid)
          | inr t ↦ hids y (ground arith)
        ]),
      )
  | inr (inl (e', e)) ↦ ground arith
  | inr (inr e) ↦ ground arith
]

-- Leaving what was entered, when all that it depends on was visited.
leave-Grows :
    (known : Map Module) (id : String) (marks marks' : Marks)
    → contains marks.visiting id ≡ false
    → contains marks.visited id ≡ false
    → IsSearched known marks
    → Grows known (record { visiting = id ∷ marks.visiting; visited = marks.visited }) marks'
    → ((y : String) → contains (depends known id) y ≡ true → contains marks'.visited y ≡ true)
    → Grows known marks
        (record { visiting = delete id marks'.visiting; visited = id ∷ marks'.visited })
unfolding contains delete
leave-Grows known id marks marks' hv hd hs (e, (ho, hx), hm) hdep =
    let fresh : contains marks'.visited id ≡ false =
      hx id (subst (λ l. contains l id ≡ true) (sym e) (ground (arith, eq_iff id id))) in
    let restored : delete id marks'.visiting ≡ marks.visiting =
      (let rest = delete-fresh id marks.visiting hv in
        ap (delete id) e ∙ ground (arith, eq_iff id id)) in
    (
      restored,
      (
        (fresh, hdep, ho),
        (λ x h.
            let before : contains marks.visiting x ≡ true =
              subst (λ l. contains l x ≡ true) restored h in
            let inside : contains marks'.visiting x ≡ true =
              subst (λ l. contains l x ≡ true) (sym e) (ground arith) in
            let out = hx x inside in ground (arith, eq_iff id x)),
      ),
      (λ x h. let k = hm x h in ground arith),
    )

pub entered-IsSearched :
    (known : Map Module) (id : String) (marks : Marks)
    → contains marks.visited id ≡ false
    → IsSearched known marks
    → IsSearched known (record { visiting = id ∷ marks.visiting; visited = marks.visited })
unfolding contains
entered-IsSearched known id marks hd (ho, hx) = (
  ho,
  (λ x h. elim (Bool-cases (id == x)) [
    | inl t ↦ subst (λ z. contains marks.visited z ≡ false) ((eq_iff id x).0 t) hd
    | inr t ↦ hx x (ground arith)
  ]),
)

entered-Grows :
    (known : Map Module) (f : String → Marks → Visit)
    → Visits known f
    → (id : String) (marks marks' : Marks) → contains marks.visiting id ≡ false
    → contains marks.visited id ≡ false
    → IsSearched known marks
    → leave id (
        visit_each f
          (depends known id)
          (record { visiting = id ∷ marks.visiting; visited = marks.visited }))
      ≡ returned marks'
    → Grows known marks marks' × (contains marks'.visited id ≡ true)
unfolding leave contains
entered-Grows known f hf id marks marks' hv hd hs h =
    let inside : Marks = record { visiting = id ∷ marks.visiting; visited = marks.visited } in
    elim (Visit-cases (visit_each f (depends known id) inside)) [
      | inl (m, e) ↦
          let (g, hdep) =
            visit_each-Grows known f hf (depends known id) inside m
              (entered-IsSearched known id marks hd hs) e in
          let left = leave-Grows known id marks m hv hd hs g hdep in
          let same : record { visiting = delete id m.visiting; visited = id ∷ m.visited } ≡ marks' =
            ground arith in
          subst (λ m'. Grows known marks m' × (contains m'.visited id ≡ true)) same
            (left, ground (arith, eq_iff id id))
      | inr (inl (e', e)) ↦ ground arith
      | inr (inr e) ↦ ground arith
    ]

-- A visit that returns has visited its module, after all that it depends on.
pub visit-Grows :
    (known : Map Module) (n : ℕ) (id : String) (marks marks' : Marks)
    → IsSearched known marks
    → visit known n id marks ≡ returned marks'
    → Grows known marks marks' × (contains marks'.visited id ≡ true)
unfolding visit
visit-Grows known zero id marks marks' hs h = ground arith
visit-Grows known (suc n) id marks marks' hs h = elim (Bool-cases (contains marks.visiting id)) [
  | inl hv ↦ ground arith
  | inr hv ↦ elim (Bool-cases (contains marks.visited id)) [
    | inl hd ↦
        let same : marks ≡ marks' = ground arith in
        subst (λ m. Grows known marks m × (contains m.visited id ≡ true)) same
          ((refl, hs, (λ x hx. hx)), hd)
    | inr hd ↦
        entered-Grows known (visit known n) (visit-Grows known n) id marks marks' hv hd hs
          (ground arith)
  ]
]
