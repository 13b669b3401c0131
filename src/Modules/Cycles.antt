-- ===== src/Modules/Cycles.antt =====
-- pkg/registry/registry.go: a visit that is refused has found a cycle, and the fuel suffices.
use cloud_ring.Prelude.{
  ℕ, zero, suc, ◌<◌, String, true, ◌≡◌, ◌≢◌, sym, subst, arith, ◌==◌, eq_iff, Bool-cases, inl, inr,
  List, [], ◌∷◌,
}
use cloud_ring.Prelude.Lists.{contains, Map}
use cloud_ring.Modules.Types.{Module, ValidationError}
use cloud_ring.Modules.Dependencies.{Marks, refused, exhausted, leave, visit_each, visit}
use cloud_ring.Modules.Graph.{depends, Reaches, one, Reaches-snoc, free, free-lt}
use cloud_ring.Modules.Search.{Visit-cases, IsSearched, visit-Grows, entered-IsSearched}

-- All that is being visited reaches the module.
abbrev IsPath : Map Module → List String → String → Type 0
IsPath known visiting id = (x : String) → contains visiting x ≡ true → Reaches known x id

abbrev HasCycle : Map Module → Type 0
HasCycle known = (z : String) × Reaches known z z

-- A loop that is refused was refused in one of its visits, on marks with the same path.
pub visit_each-refused :
    (known : Map Module) (n : ℕ)
    → ((id : String) (marks : Marks) (e : ValidationError)
        → IsSearched known marks
        → IsPath known marks.visiting id
        → visit known n id marks ≡ refused e
        → HasCycle known)
    → (ids : List String) (marks : Marks) (e : ValidationError) → IsSearched known marks
    → ((y : String) → contains ids y ≡ true → IsPath known marks.visiting y)
    → visit_each (visit known n) ids marks ≡ refused e
    → HasCycle known
unfolding visit_each contains
visit_each-refused known n hf [] marks e hs hp h = ground arith
visit_each-refused known n hf (id ∷ ids) marks e hs hp h =
    elim (Visit-cases (visit known n id marks)) [
      | inl (m, t) ↦
          let ((same, hs', _), _) = visit-Grows known n id marks m hs t in
          visit_each-refused known n hf ids m e hs'
            (λ y hy. subst (λ l. IsPath known l y) (sym same) (hp y (ground arith))) (ground arith)
      | inr (inl (e', t)) ↦ hf id marks e' hs (hp id (ground (arith, eq_iff id id))) t
      | inr (inr t) ↦ ground arith
    ]

pub visit-refused :
    (known : Map Module) (n : ℕ) (id : String) (marks : Marks) (e : ValidationError)
    → IsSearched known marks
    → IsPath known marks.visiting id
    → visit known n id marks ≡ refused e
    → HasCycle known
unfolding visit leave contains
visit-refused known zero id marks e hs hp h = ground arith
visit-refused known (suc n) id marks e hs hp h = elim (Bool-cases (contains marks.visiting id)) [
  | inl hv ↦ (id, hp id hv)
  | inr hv ↦ elim (Bool-cases (contains marks.visited id)) [
    | inl hd ↦ ground arith
    | inr hd ↦
        let inside : Marks = record { visiting = id ∷ marks.visiting; visited = marks.visited } in
        let stopped : visit_each (visit known n) (depends known id) inside ≡ refused e =
          elim (Visit-cases (visit_each (visit known n) (depends known id) inside)) [
            | inl (m, t) ↦ ground arith
            | inr (inl (e', t)) ↦ ground arith
            | inr (inr t) ↦ ground arith
          ] in
        visit_each-refused known n (visit-refused known n) (depends known id) inside e
          (entered-IsSearched known id marks hd hs)
          (λ y hy x hx. elim (Bool-cases (id == x)) [
            | inl t ↦ subst (λ z. Reaches known z y) ((eq_iff id x).0 t) (one id y hy)
            | inr t ↦ Reaches-snoc y (hp x (ground arith)) hy
          ])
          stopped
  ]
]

-- The keys hold all that they depend on.
abbrev pub IsClosed : Map Module → List String → Type 0
IsClosed known keys =
    (x y : String)
    → contains keys x ≡ true
    → contains (depends known x) y ≡ true
    → contains keys y ≡ true

pub visit_each-returns :
    (known : Map Module) (keys : List String) (n : ℕ)
    → ((id : String) (marks : Marks)
        → IsSearched known marks
        → contains keys id ≡ true
        → free marks.visiting keys < n
        → visit known n id marks ≢ exhausted)
    → (ids : List String) (marks : Marks) → IsSearched known marks
    → ((y : String) → contains ids y ≡ true → contains keys y ≡ true)
    → free marks.visiting keys < n
    → visit_each (visit known n) ids marks ≢ exhausted
unfolding visit_each contains
visit_each-returns known keys n hf [] marks hs hk hn h = ground arith
visit_each-returns known keys n hf (id ∷ ids) marks hs hk hn h =
    elim (Visit-cases (visit known n id marks)) [
      | inl (m, t) ↦
          let ((same, hs', _), _) = visit-Grows known n id marks m hs t in
          visit_each-returns known keys n hf ids m hs' (λ y hy. hk y (ground arith))
            (subst (λ l. free l keys < n) (sym same) hn) (ground arith)
      | inr (inl (e', t)) ↦ ground arith
      | inr (inr t) ↦ hf id marks hs (hk id (ground (arith, eq_iff id id))) hn t
    ]

-- A visit has fuel enough if there is more of it than there are keys off the path.
pub visit-returns :
    (known : Map Module) (keys : List String)
    → IsClosed known keys
    → (n : ℕ) (id : String) (marks : Marks) → IsSearched known marks
    → contains keys id ≡ true
    → free marks.visiting keys < n
    → visit known n id marks ≢ exhausted
unfolding visit leave
visit-returns known keys hc zero id marks hs hk hn h = omega arith
visit-returns known keys hc (suc n) id marks hs hk hn h =
    elim (Bool-cases (contains marks.visiting id)) [
      | inl hv ↦ ground arith
      | inr hv ↦ elim (Bool-cases (contains marks.visited id)) [
        | inl hd ↦ ground arith
        | inr hd ↦
            let inside : Marks = record {
              visiting = id ∷ marks.visiting;
              visited = marks.visited;
            } in
            let fewer = free-lt id marks.visiting keys hv hk in
            let returns =
              visit_each-returns known keys n (visit-returns known keys hc n) (depends known id)
                inside (entered-IsSearched known id marks hd hs) (λ y hy. hc id y hk hy)
                (omega arith) in
            elim (Visit-cases (visit_each (visit known n) (depends known id) inside)) [
              | inl (m, t) ↦ ground arith
              | inr (inl (e', t)) ↦ ground arith
              | inr (inr t) ↦ returns t
            ]
      ]
    ]
